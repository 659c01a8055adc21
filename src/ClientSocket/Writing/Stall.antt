-- ===== src/ClientSocket/Writing/Stall.antt =====
-- The queue does not stall.
use isolation_server.Common.{◌+◌, ◌≤◌, length, Option}
use isolation_server.ClientSocket.Writing.{Writer}

-- For each buffer in the queue a write is under way, a completion handler waits, or a call of
-- PostWrite has not started its write.
abbrev IsCovered : Writer → Type 0
IsCovered w = length w.queue ≤ length w.in_flight + w.waiting + length w.posting
