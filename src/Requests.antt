-- ===== src/Requests.antt =====
-- What the handlers of package module make of a request: generator.go, helpers.go, relation_scope.go.
pub mod AddInput
pub mod Scopes
