-- ===== src/Deps.antt =====
-- gateway/src/app.ts, AppDeps: the clients that the handlers are given. None of them is part of
-- the repository, so each is a parameter: a type of states and the calls that the gateway makes.
-- A read does not change the state, and a call may throw.
pub mod Prisma
pub mod Clients
pub mod Action
pub mod Retry
pub mod Crypto
