-- ===== src/Components.antt =====
-- worker/emi_worker/components: what a board says of a part, the documents of components, and the model that
-- a part gets from them.
pub mod Package
pub mod Farads
pub mod Python
pub mod Document
pub mod Parse
pub mod Resolve
pub mod Names
pub mod Longer
mod Examples
mod Stock
