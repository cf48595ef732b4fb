-- ===== src/Raster.antt =====
-- worker/emi_worker/raster.py: the union-find that merges copper islands, and the runs of a row.
pub mod UnionFind
mod Examples
