-- ===== src/Status.antt =====
-- kernel/kernel.h: the result codes and the kernel's state.
pub data Status : Type 0 where
  ok err nomem noslot notfound busy : Status

pub data KernelState : Type 0 where
  boot init run panic : KernelState
