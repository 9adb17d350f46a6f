-- ===== src/Auth.antt =====
-- Users, sessions and tokens: internal/domain/user, internal/infrastructure/persistence/user,
-- internal/infrastructure/auth, internal/application/user_usecase.go, the middleware jwt_auth.go and
-- the controller auth_controller.go.
pub mod Types
pub mod Repository
pub mod Hasher
pub mod Tokens
pub mod UseCase
pub mod Controller
pub mod Logins
pub mod Sound
pub mod Checks
pub mod Passwords
pub mod Sessions
pub mod Rotation
