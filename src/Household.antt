-- ===== src/Household.antt =====
-- The household of dotty-behaviour: its members, and who a name or a phrase refers to.
pub mod Value
pub mod Person
pub mod Registry
pub mod Resolver
pub mod RoomView
pub mod Spelling
pub mod Linked
pub mod SelfId
pub mod Names
pub mod Reload
pub mod Birthday
pub mod NextBirthday
