-- ===== src/Paging.antt =====
-- What the page table, the frames and the page file of working/vmem.h mean together: which page
-- lies in which frame, and what the virtual memory holds.
pub mod Coherent
pub mod Unload
pub mod Load
pub mod Touch
