-- ===== src/Examples.antt =====
-- The theorems at concrete inputs, and runs of the definitions. Examples/Sample has the inputs that they
-- share.
mod Sample
mod Constraints
mod Contexts
mod Choices
mod Sources
mod Generated
mod Reading
mod Commands
mod Lists
mod Packages
mod Directories
