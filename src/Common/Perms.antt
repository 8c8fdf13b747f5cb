-- ===== src/Common/Perms.antt =====
-- Lists up to their order.
use mathlib.Core.Path.{◌≡◌, sym, ap, subst, ◌∙◌}
use mathlib.Core.List.{List, [], ◌∷◌, ◌++◌, append_assoc, Perm, perm_middle, perm_append_comm}
use mathlib.Core.List.Perm
use garden_evm_watcher.Common.Lists.{Interleave, done, left, right}

module _ {A : Type 0} where
  pub Perm-of_eq : {xs ys : List A} → xs ≡ ys → Perm xs ys
  Perm-of_eq {xs} e = subst (Perm xs) e (Perm.refl xs)

  pub Interleave-Perm : {xs ys zs : List A} → Interleave xs ys zs → Perm (xs ++ ys) zs
  Interleave-Perm done = Perm.refl []
  Interleave-Perm (left {x} i) = Perm.cons x (Interleave-Perm i)
  Interleave-Perm (right {y} {xs} {ys} i) =
      Perm.trans (perm_middle {a = y} xs ys) (Perm.cons y (Interleave-Perm i))

  -- The two lists in the middle change places.
  pub append_exchange :
      (ks bs cs ds : List A) → Perm ((ks ++ bs) ++ (cs ++ ds)) ((ks ++ cs) ++ (bs ++ ds))
  append_exchange ks bs cs ds = Perm.trans (Perm-of_eq (around ks bs cs ds)) (
      Perm.trans (Perm.append_left ks (Perm.append_right ds (perm_append_comm bs cs)))
        (Perm-of_eq (sym (around ks cs bs ds))))
    where
      around : (xs ys zs ws : List A) → (xs ++ ys) ++ (zs ++ ws) ≡ xs ++ ((ys ++ zs) ++ ws)
      around xs ys zs ws =
          append_assoc xs ys (zs ++ ws) ∙ ap (λ l. xs ++ l) (sym (append_assoc ys zs ws))

  -- One entry moves from the middle of the second list to the end of the first.
  pub append-moves :
      (ks xs ys : List A) (y : A) → Perm ((ks ++ y ∷ []) ++ (xs ++ ys)) (ks ++ (xs ++ y ∷ ys))
  append-moves ks xs ys y =
      Perm.trans (Perm-of_eq (append_assoc ks (y ∷ []) (xs ++ ys)))
        (Perm.append_left ks (Perm.symm (perm_middle {a = y} xs ys)))
