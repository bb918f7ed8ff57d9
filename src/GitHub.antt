-- ===== src/GitHub.antt =====
-- internal/github: the client of the GitHub API.
pub mod Http
pub mod Endpoints
pub mod Errors
pub mod Scope
pub mod Token
pub mod Runners
pub mod Workflows
