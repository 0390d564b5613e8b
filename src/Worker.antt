-- ===== src/Worker.antt =====
-- app/worker.py: the handlers of the queued jobs, the batch and the polling loop.
pub mod Handlers
pub mod Batch
pub mod Poll
