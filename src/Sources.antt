-- ===== src/Sources.antt =====
-- Sources: the domain (internal/domain/source), the repository
-- (internal/infrastructure/persistence/source), the use case
-- (internal/application/source_usecase.go) and the handlers
-- (internal/http/controller/source_controller.go). The fresh uuid and the readings of the clock are
-- arguments.
pub mod Types
pub mod Repository
pub mod UseCase
pub mod Handling
pub mod Races
