-- ===== src/Tests/Standing.antt =====
-- A user who is deleted.
use inference_exchange.Store.Users.{delete_user}
use inference_exchange.Store.Users.Standing.{Deletes, delete_user-Deletes}
use inference_exchange.Tests.Tokens.{db}

delete_user-Deletes_example : Deletes "carol" db (delete_user "carol" db)
delete_user-Deletes_example = delete_user-Deletes "carol" db
