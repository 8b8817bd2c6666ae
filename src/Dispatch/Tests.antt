-- ===== src/Dispatch/Tests.antt =====
-- Rounds of the dispatcher at the sample database.
use mervio.Prelude.{some}
use mervio.Dispatch.{Dispatcher}

abbrev dispatcher : Dispatcher
dispatcher = record { principal = 3; batch = 50; cursor = some 9 }
