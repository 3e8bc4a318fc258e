-- ===== src/Accounts/Revocation/Lockout.antt =====
-- After `resetUserPassword`: the key that ends the old sessions, and the sessions that come later.
use novax_backend.Common.Text.{Text}
use novax_backend.Schema.Db.{Db}
