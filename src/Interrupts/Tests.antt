-- ===== src/Interrupts/Tests.antt =====
-- The theorems on descriptors and interrupts at concrete tables.
use nibras_os.Interrupts.{GdtEntry}

abbrev blank : GdtEntry
blank = record {
  limit_low = 0;
  base_low = 0;
  base_middle = 0;
  access = 0;
  granularity = 0;
  base_high = 0;
}
