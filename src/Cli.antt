-- ===== src/Cli.antt =====
-- cmd/mkqd: the subcommands over Redis. Cli/Flags is package flag as they use it, and Cli/Typed has
-- their flags; a command itself starts from its flags and its arguments. The value that both its JSON
-- and its table are made of is what a command gives, and Cli/Tables makes the table.
pub mod Redis
pub mod Text
pub mod View
pub mod Inspect
pub mod Admin
pub mod Dispatch
pub mod ReadOnly
pub mod Changes
pub mod Paging
pub mod Opening
pub mod Drain
pub mod Check
pub mod Enqueue
pub mod Tables
pub mod Flags
pub mod Typed
pub mod Typing
pub mod Arguments
pub mod Confirmed
pub mod LateFlags
pub mod Printed
