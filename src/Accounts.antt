-- ===== src/Accounts.antt =====
-- db/users.py, db/sessions.py, coordinator/middleware.py and coordinator/auth.py: users, their
-- sessions, and the user of a request. `none` as a whole result is an exception: an INSERT that
-- breaks a constraint. A uuid that the code or the database draws is an argument.
pub mod Users
pub mod Sessions
pub mod Middleware
pub mod Auth
pub mod Cookies
pub mod Visits
pub mod SignIn
