-- ===== src/Logger/Threads/Order/Sublists.antt =====
-- Records in their order, some left out.
use mathlib.Core.List.{Sublistᴰ}
use mathlib.Core.List.Sublistᴰ
use cpp_logger.Base.{◌≡◌, refl, ap, List, [], ◌∷◌, ◌++◌, map}
use cpp_logger.Queue.History.{Exit, handed, evicted, value}
use cpp_logger.Queue.Handed.{handed_values}

module _ {ℓ} {A : Type ℓ} where
  -- The first list is the second with some elements left out.
  abbrev pub IsSub : List A → List A → Type ℓ
  IsSub = Sublistᴰ

  pub IsSub-front : (xs zs ys : List A) → IsSub (xs ++ zs) ys → IsSub xs ys
  IsSub-front [] zs ys s = Sublistᴰ.nil-sublist ys
  IsSub-front (x ∷ xs) zs [] s = elim s [ ]
  IsSub-front (x ∷ xs) zs (y ∷ ys) (Sublistᴰ.cons s) = Sublistᴰ.cons (IsSub-front (x ∷ xs) zs ys s)
  IsSub-front (x ∷ xs) zs (y ∷ ys) (Sublistᴰ.cons-cons e s) =
      Sublistᴰ.cons-cons e (IsSub-front xs zs ys s)

  pub IsSub-more : (xs ys zs : List A) → IsSub xs ys → IsSub xs (ys ++ zs)
  IsSub-more xs [] zs Sublistᴰ.slnil = Sublistᴰ.nil-sublist zs
  IsSub-more xs (y ∷ ys) zs (Sublistᴰ.cons s) = Sublistᴰ.cons (IsSub-more xs ys zs s)
  IsSub-more (x ∷ xs) (y ∷ ys) zs (Sublistᴰ.cons-cons e s) =
      Sublistᴰ.cons-cons e (IsSub-more xs ys zs s)

  -- Some of two lists one after the other: first some of the first, then some of the second.
  pub record InOrder (earlier more all : List A) : Type ℓ where
    pub first : List A
    pub second : List A
    pub split : all ≡ first ++ second
    pub of_earlier : IsSub first earlier
    pub of_more : IsSub second more

  pub IsSub-InOrder :
      (xs earlier more : List A) → IsSub xs (earlier ++ more) → InOrder earlier more xs
  IsSub-InOrder xs [] more s = record {
    first = [];
    second = xs;
    split = refl;
    of_earlier = Sublistᴰ.slnil;
    of_more = s;
  }
  IsSub-InOrder xs (y ∷ earlier) more (Sublistᴰ.cons s) =
      let r : InOrder earlier more xs = IsSub-InOrder xs earlier more s in
      record {
        first = r.first;
        second = r.second;
        split = r.split;
        of_earlier = Sublistᴰ.cons r.of_earlier;
        of_more = r.of_more;
      }
  IsSub-InOrder (x ∷ xs) (y ∷ earlier) more (Sublistᴰ.cons-cons e s) =
      let r : InOrder earlier more xs = IsSub-InOrder xs earlier more s in
      record {
        first = x ∷ r.first;
        second = r.second;
        split = ap (λ us. x ∷ us) r.split;
        of_earlier = Sublistᴰ.cons-cons e r.of_earlier;
        of_more = r.of_more;
      }

  -- What was handed over, among all that left.
  pub handed_values-IsSub : (es : List (Exit A)) → IsSub (handed_values es) (map value es)
  handed_values-IsSub [] = Sublistᴰ.slnil
  handed_values-IsSub (handed x ∷ es) = Sublistᴰ.cons-cons refl (handed_values-IsSub es)
  handed_values-IsSub (evicted x ∷ es) = Sublistᴰ.cons (handed_values-IsSub es)
