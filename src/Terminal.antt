-- ===== src/Terminal.antt =====
-- `dw attach` of crates/drivewire-cli/src/main.rs: what the terminal sends and shows.
pub mod LineEndings
pub mod Escape
pub mod Attach
