-- ===== src/Ingest/Visible.antt =====
-- A turn that was stored can be read.
use higgsfield_memory_servic.Prelude.{nat_eq}
use higgsfield_memory_servic.Datetime.{Datetime}
