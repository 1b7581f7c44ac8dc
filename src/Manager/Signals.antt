-- ===== src/Manager/Signals.antt =====
-- The signal handling of working/mmanage.c: `sighandler` with `case_page_fault`, and the loop
-- that waits for signals. What the loop prints is left out.
use suse_vm.Prelude.{List, [], ◌∷◌}
use suse_vm.Vmem.State.{Signal, none_pending, sigusr1, sigusr2, sigint}
use suse_vm.Vmem.Run.{ok, Cmd, pure, ◌>>=◌, ◌>>◌}
use suse_vm.Manager.Replace.{Algorithm}
use suse_vm.Manager.Paging.{page_fault}

-- `signal_number = signo`
unfoldable pub set_signal : Signal → Cmd (Unit {0})
set_signal s w = ok tt (record w { signal_number = s })

-- `noticed`
unfoldable pub noticed : Cmd (Unit {0})
unfolding set_signal
noticed = set_signal none_pending

-- `case_page_fault`, on the signal number that it reads
unfoldable pub case_page_fault : Algorithm → Signal → Cmd (Unit {0})
case_page_fault alg sigusr1 = noticed >> page_fault alg
case_page_fault alg _ = pure tt

-- `sighandler`
unfoldable pub sighandler : Algorithm → Signal → Cmd (Unit {0})
unfolding set_signal
sighandler alg signo = do set_signal signo; λ w. case_page_fault alg w.signal_number w

-- how `signal_proccessing_loop` stands when the given signals have come in
pub data LoopState : Type 0 where
  waiting quit : LoopState

-- what the loop does with the signal number that it finds after `pause`
unfoldable pub after_pause : Signal → Cmd LoopState
unfolding noticed
after_pause sigusr2 = noticed >> pure waiting
after_pause sigint = noticed >> pure quit
after_pause _ = pure waiting

-- `signal_proccessing_loop`, one signal for each `pause`
unfoldable pub signal_processing_loop : Algorithm → List Signal → Cmd LoopState
unfolding set_signal sighandler after_pause
signal_processing_loop alg [] = set_signal none_pending >> pure waiting
signal_processing_loop alg (s ∷ signals) = do
  set_signal none_pending
  sighandler alg s
  state ← λ w. after_pause w.signal_number w
  elim state [ quit ↦ pure quit | waiting ↦ signal_processing_loop alg signals ]
