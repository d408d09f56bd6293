-- ===== src/TokenBucket/Conserved.antt =====
-- What the emulation of warmup2.c has done with its tokens and packets at any time, and at its end.
use usc_projects.Prelude.{List}
