-- ===== src/Peakgo/Timer/Tests.antt =====
-- Runs of a timer (server/peakgo/timer/timer.go).
