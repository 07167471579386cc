-- ===== src/Env/Persist.antt =====
-- The registry survives a save and a load: env/env.c on the driver of env/fat12.c.
use new_attempt.Base.{List, ℕ}
use new_attempt.CString.{codes}
use new_attempt.Fat12.Volume.{Volume}

abbrev aios : List ℕ
aios = codes "AIOS.ENV"
