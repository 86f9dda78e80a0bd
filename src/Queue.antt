-- ===== src/Queue.antt =====
-- pkg/queue: the bounded packet queue (fifo.go) and its early-detection dropper (wred/wred.go).
pub mod Wred
pub mod Fifo
