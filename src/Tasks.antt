-- ===== src/Tasks.antt =====
-- internal/tasks: the names on the wire, the parameters, the responses and the routing of a task.
pub mod Functions
pub mod Names
pub mod Params
pub mod Response
pub mod Status
pub mod Timeouts
pub mod Dispatch
