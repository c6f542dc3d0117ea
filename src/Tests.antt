-- ===== src/Tests.antt =====
-- The properties at concrete inputs, and runs of the code: the tests of the Go packages among them.
mod Data
mod Permissions
mod Roles
mod Controller
mod Connector
mod Client
mod Cache
mod Requests
mod Threads
mod Scheme
mod Provider
mod Visits
