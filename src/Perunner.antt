-- ===== src/Perunner.antt =====
-- The host's side of a run (perunner/src): the size of the io file.
pub mod IoFile
mod Tests
