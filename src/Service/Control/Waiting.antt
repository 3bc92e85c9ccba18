-- ===== src/Service/Control/Waiting.antt =====
-- The waits of `startProxy`, and when they end.
use glet.Common.{
  ◌≡◌, ◌⊎◌, inl, inr, refl, sym, ap, ◌∙◌, some, List, [], ◌∷◌, ◌++◌, ◌==◌, arith, Bool-cases,
}
use mathlib.Core.List.{append_assoc}
use glet.Service.Control.Message.{
  ProxyState, cold, booting, running, loading, exiting, flushed, state_num, Request, start, end,
  connect, disconnect, state, used_mem, load, unload, mark,
}
use glet.Service.Control.Execute.{
  Backend, ProxyInfo, wait_proxy, boot_when_cold, start_proxy_ctrl, mark_proxy, add_effect, booted,
}

-- The proxy boots already, or the waits of `startProxy` come to read that it is cold, and later that it
-- boots.
abbrev pub Boots : Backend → ProxyInfo → Type 0
Boots b p =
    let curr_state = b.states p.dev_id p.partition_num in
    (curr_state ≡ booting)
    ⊎ ((before : List ProxyState) × (between : List ProxyState) × (after : List ProxyState)
        × (curr_state ∷ b.reads ≡ before ++ (cold ∷ (between ++ (booting ∷ after)))))

-- What a request waits for: only a start waits, for the process of the proxy.
abbrev pub Responds : Backend → ProxyInfo → Request → Type 0
Responds b p start = Boots b p
Responds b p end = Unit
Responds b p connect = Unit
Responds b p disconnect = Unit
Responds b p state = Unit
Responds b p used_mem = Unit
Responds b p (load m n) = Unit
Responds b p (unload m) = Unit
Responds b p (mark st) = Unit

-- A wait ends at the latest where the state stands, and leaves what follows.
wait_proxy-ends :
    (st : ProxyState) (before rest : List ProxyState)
    → (skipped : List ProxyState) × (wait_proxy st (before ++ (st ∷ rest)) ≡ some (skipped ++ rest))
unfolding wait_proxy
wait_proxy-ends st [] rest = ([], ground arith)
wait_proxy-ends st (r ∷ before) rest = elim (Bool-cases (state_num r == state_num st)) [
  | inl here ↦ (before ++ st ∷ [], rw here (ap some (sym (append_assoc before (st ∷ []) rest))))
  | inr later ↦ (let (skipped, e) = wait_proxy-ends st before rest in (skipped, rw later e))
]

boot_when_cold-ends :
    (b : Backend) (p : ProxyInfo) (before between after : List ProxyState)
    → b.states p.dev_id p.partition_num ∷ b.reads
      ≡ before ++ (cold ∷ (between ++ (booting ∷ after)))
    → (b' : Backend) × (boot_when_cold b p ≡ some b')
unfolding boot_when_cold
boot_when_cold-ends b p before between after e =
    let (skipped, first) = wait_proxy-ends cold before (between ++ (booting ∷ after)) in
    let (left, second) = wait_proxy-ends booting (skipped ++ between) after in
    let then_boots : wait_proxy booting (skipped ++ (between ++ (booting ∷ after)))
        ≡ some (left ++ after) =
      ap (wait_proxy booting) (sym (append_assoc skipped between (booting ∷ after))) ∙ second in
    let is_cold : wait_proxy cold (b.states p.dev_id p.partition_num ∷ b.reads)
        ≡ some (skipped ++ (between ++ (booting ∷ after))) =
      ap (wait_proxy cold) e ∙ first in
    (
      mark_proxy (add_effect (record b { reads = left ++ after }) (booted p)) p booting,
      ground (arith, is_cold, then_boots),
    )

start_proxy_ctrl_cases :
    (b : Backend) (p : ProxyInfo) (curr_state : ProxyState)
    → b.states p.dev_id p.partition_num ≡ curr_state
    → (start_proxy_ctrl b p ≡ some b) ⊎ (start_proxy_ctrl b p ≡ boot_when_cold b p)
unfolding start_proxy_ctrl
start_proxy_ctrl_cases b p cold e = inr (ground arith)
start_proxy_ctrl_cases b p booting e = inl (ground arith)
start_proxy_ctrl_cases b p running e = inr (ground arith)
start_proxy_ctrl_cases b p loading e = inr (ground arith)
start_proxy_ctrl_cases b p exiting e = inr (ground arith)
start_proxy_ctrl_cases b p flushed e = inr (ground arith)

start_booting :
    (b : Backend) (p : ProxyInfo)
    → b.states p.dev_id p.partition_num ≡ booting
    → start_proxy_ctrl b p ≡ some b
unfolding start_proxy_ctrl
start_booting b p e = ground arith

pub start_proxy_ctrl-ends :
    (b : Backend) (p : ProxyInfo) → Boots b p → (b' : Backend) × (start_proxy_ctrl b p ≡ some b')
start_proxy_ctrl-ends b p (inl e) = (b, start_booting b p e)
start_proxy_ctrl-ends b p (inr (before, between, after, e)) =
    let (b', ends) = boot_when_cold-ends b p before between after e in
    elim (start_proxy_ctrl_cases b p (b.states p.dev_id p.partition_num) refl) [
      | inl none_needed ↦ (b, none_needed)
      | inr boots ↦ (b', boots ∙ ends)
    ]
