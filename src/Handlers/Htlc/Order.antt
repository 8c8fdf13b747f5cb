-- ===== src/Handlers/Htlc/Order.antt =====
-- The worker pool runs the handlers of different jobs in any order. When that order does not
-- matter for the swaps table.
use garden_evm_watcher.Common.{
  ℕ, ◌≡◌, refl, ap, ap₂, ◌∙◌, if◌then◌else◌, bytes_comparable, same_bytes_iff, List, [], ◌∷◌, map,
  arith,
}
use mathlib.Core.Logic.{∥∥₁_elim}
use mathlib.Core.List.{Mem, Perm, Permᴰ, mem-cons_self, mem-cons_of_mem}
use mathlib.Core.List.Perm
use native.Mathlib.Decide.{ℕ_discrete}
use garden_evm_watcher.Model.Rows.{Swap}
use garden_evm_watcher.Store.Gorm.{is_target}
use garden_evm_watcher.Handlers.Htlc.Events.{
  SwapEvent, initiates, redeems, refunds, swap_of, row_of,
}

-- A row without the time stamp that every update changes.
abbrev pub erase : Swap → Swap
erase row = record row { updated_at = 0 }

abbrev pub apply_to_row : SwapEvent → Swap → Swap
apply_to_row e row = if is_target (swap_of e) row then row_of e row else row

unfoldable pub apply_events : List SwapEvent → List Swap → List Swap
apply_events [] rows = rows
apply_events (e ∷ es) rows = apply_events es (map (apply_to_row e) rows)

abbrev kind : SwapEvent → ℕ
kind (initiates id tx amount block) = 0
kind (redeems id tx secret block) = 1
kind (refunds id tx block) = 2

-- Two events that write the same columns of the same swap.
abbrev pub SameSlot : SwapEvent → SwapEvent → Type 0
SameSlot e f = (kind e ≡ kind f) × (swap_of e ≡ swap_of f)

apply_to_row_comm :
    (e f : SwapEvent) (row : Swap)
    → (SameSlot e f → e ≡ f)
    → apply_to_row e (apply_to_row f row) ≡ apply_to_row f (apply_to_row e row)
apply_to_row_comm (initiates id tx a b) (redeems id' tx' s' b') row h = ground arith
apply_to_row_comm (initiates id tx a b) (refunds id' tx' b') row h = ground arith
apply_to_row_comm (redeems id tx s b) (initiates id' tx' a' b') row h = ground arith
apply_to_row_comm (redeems id tx s b) (refunds id' tx' b') row h = ground arith
apply_to_row_comm (refunds id tx b) (initiates id' tx' a' b') row h = ground arith
apply_to_row_comm (refunds id tx b) (redeems id' tx' s' b') row h = ground arith
apply_to_row_comm (initiates id tx a b) (initiates id' tx' a' b') row h =
    ground (arith, same_bytes_iff row.swap_id id, same_bytes_iff row.swap_id id', h)
apply_to_row_comm (redeems id tx s b) (redeems id' tx' s' b') row h =
    ground (arith, same_bytes_iff row.swap_id id, same_bytes_iff row.swap_id id', h)
apply_to_row_comm (refunds id tx b) (refunds id' tx' b') row h =
    ground (arith, same_bytes_iff row.swap_id id, same_bytes_iff row.swap_id id', h)

-- Events that write the same slot are the same event, as when a log is delivered twice.
pub record Agree (es : List SwapEvent) : Type 0 where
  pub agree : (e f : SwapEvent) → Mem e es → Mem f es → SameSlot e f → e ≡ f

map_twice_comm :
    (e f : SwapEvent) (rows : List Swap)
    → (SameSlot e f → e ≡ f)
    → map (apply_to_row e) (map (apply_to_row f) rows)
      ≡ map (apply_to_row f) (map (apply_to_row e) rows)
map_twice_comm e f [] h = refl
map_twice_comm e f (row ∷ rows) h =
    ap₂ ◌∷◌ (apply_to_row_comm e f row h) (map_twice_comm e f rows h)

Agree-tail : (e : SwapEvent) (es : List SwapEvent) → Agree (e ∷ es) → Agree es
Agree-tail e es a = record {
  agree = λ x y m n. a.agree x y (mem-cons_of_mem e m) (mem-cons_of_mem e n);
}

Agree-perm : {es fs : List SwapEvent} → Permᴰ es fs → Agree es → Agree fs
Agree-perm {es} {fs} d a = record { agree = λ x y m n. a.agree x y (back x m) (back y n) }
  where
    back : (x : SwapEvent) → Mem x fs → Mem x es
    back x = (Perm.mem_iff (Perm.symm ∣ d ∣₁)).0

apply_events-permᴰ :
    {es fs : List SwapEvent} (d : Permᴰ es fs) (rows : List Swap)
    → Agree es
    → apply_events es rows ≡ apply_events fs rows
unfolding apply_events
apply_events-permᴰ Permᴰ.nil rows a = refl
apply_events-permᴰ (Permᴰ.cons {a = e} {b = f} {l₁ = es} {l₂ = fs} p d) rows a =
    apply_events-permᴰ d (map (apply_to_row e) rows) (Agree-tail e es a)
    ∙ ap (λ x. apply_events fs (map (apply_to_row x) rows)) p
apply_events-permᴰ (Permᴰ.swap {a = e} {b = f} {l = es} p q) rows a =
    ap (apply_events es)
      (map_twice_comm f e rows (a.agree f e (mem-cons_of_mem e mem-cons_self) mem-cons_self))
    ∙ ap₂ (λ x y. apply_events es (map (apply_to_row x) (map (apply_to_row y) rows))) p q
apply_events-permᴰ (Permᴰ.trans d₁ d₂) rows a =
    apply_events-permᴰ d₁ rows a ∙ apply_events-permᴰ d₂ rows (Agree-perm d₁ a)

-- In whatever order the workers apply them, the swaps end up the same.
pub apply_events-perm :
    (es fs : List SwapEvent) (rows : List Swap)
    → Perm es fs
    → Agree es
    → apply_events es rows ≡ apply_events fs rows
apply_events-perm es fs rows p a = ∥∥₁_elim p (rows_set _ _) (λ d. apply_events-permᴰ d rows a)
  where
    rows_set : IsSet (List Swap)
    rows_set = hlevel ℕ_discrete
