-- ===== src/Axis.antt =====
-- core/plot/addrspace_axes.py and core/plot/patch.py: the ranges of the address space that a plot
-- shows, their merge, and the intervals of the axis.
pub mod Ranges
pub mod Collapse
pub mod Sorted
pub mod Loop
pub mod Cover
pub mod Shown
pub mod Whole
pub mod Added
