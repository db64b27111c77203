-- ===== src/Tests/Strings.antt =====
-- The string routines (CString.antt) on a memory of two texts.
use shipwreck.Base.{◌==◌, arith, if◌then◌else◌}
use shipwreck.CString.{Memory}
use shipwreck.CString.Compare.{Bytes}

-- "aa" at 100 and "a" at 200.
abbrev texts : Memory
texts p = if p == 100 then 97 else if p == 101 then 97 else if p == 200 then 97 else 0

texts-Bytes : Bytes texts
texts-Bytes p = ground arith
