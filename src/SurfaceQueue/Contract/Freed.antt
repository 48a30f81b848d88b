-- ===== src/SurfaceQueue/Contract/Freed.antt =====
-- A held node's `item_link` that points on to a node which is freed first when the queue is emptied.
