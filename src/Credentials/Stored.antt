-- ===== src/Credentials/Stored.antt =====
-- Storing and finding credentials (src/claw_msg/client/credentials.py).
use claw_msg.Prelude.{
  ◌≡◌, refl, sym, ap, ◌∙◌, String, Bool, true, false, ◌&&◌, none, some, List, [], ◌∷◌, ◌==◌, any,
  All, All-mono, eq_refl, eq_iff, inl, inr, if◌then◌else◌, Bool-cases, arith,
}
use mathlib.Core.Bool.{false≢true}
use claw_msg.Prelude.Dict.{Dict, get, put, remove, get-put, get-remove}
use claw_msg.Table.{find_first}
use claw_msg.Credentials.{
  Credentials, CredsFile, load, normalize_broker_url, is_at, is_stale, drop_stale, entry,
  store_credentials, find_credentials, get_credentials, with_key,
}

All-both :
    {A : Type 0} (P Q R : A → Type 0) (xs : List A)
    → ((x : A) → P x → Q x → R x)
    → All P xs
    → All Q xs
    → All R xs
All-both P Q R [] h a b = tt
All-both P Q R (x ∷ xs) h a b = (h x a.0 b.0, All-both P Q R xs h a.1 b.1)

All-of : {A : Type 0} (P : A → Type 0) (xs : List A) → ((x : A) → P x) → All P xs
All-of P [] h = tt
All-of P (x ∷ xs) h = (h x, All-of P xs h)

module _ (agent_id url name : String) where
  -- The entry at `j` is one of those.
  abbrev pub stale_at : String → List (String × Credentials) → Bool
  stale_at j es = any (λ e. is_stale agent_id url name e && (e.0 == j)) es

  get-drop_stale :
      (es : List (String × Credentials)) (d : Dict Credentials) (j : String)
      → get (drop_stale agent_id url name es d) j ≡ (if stale_at j es then none else get d j)
  unfolding drop_stale any
  get-drop_stale [] d j = refl
  get-drop_stale (e ∷ es) d j =
      get-drop_stale es (if is_stale agent_id url name e then remove d e.0 else d) j
      ∙ elim (Bool-cases (is_stale agent_id url name e)) [
        | inl s ↦ rw (s, get-remove) ground arith
        | inr s ↦ rw s refl
      ]

  -- No entry is one that the loop drops.
  abbrev Fresh : Dict Credentials → Type 0
  Fresh d = All (λ e. is_stale agent_id url name e ≡ false) d

  All-remove :
      (P : String × Credentials → Type 0) (d : Dict Credentials) (k : String)
      → All P d
      → All P (remove d k)
  unfolding remove
  All-remove P [] k a = tt
  All-remove P ((j, c) ∷ d) k a = elim (Bool-cases (j == k)) [
    | inl e ↦ rw e (All-remove P d k a.1)
    | inr e ↦ rw e (a.0, All-remove P d k a.1)
  ]

  remove_gone : (d : Dict Credentials) (k : String) → All (λ e. (k == e.0) ≡ false) (remove d k)
  unfolding remove
  remove_gone [] k = tt
  remove_gone ((j, c) ∷ d) k = elim (Bool-cases (j == k)) [
    | inl e ↦ rw e (remove_gone d k)
    | inr e ↦ rw e (ground (arith, eq_iff j k, eq_iff k j), remove_gone d k)
  ]

  drop_stale_keeps :
      (P : String × Credentials → Type 0) (es : List (String × Credentials)) (d : Dict Credentials)
      → All P d
      → All P (drop_stale agent_id url name es d)
  unfolding drop_stale
  drop_stale_keeps P [] d a = a
  drop_stale_keeps P (e ∷ es) d a = elim (Bool-cases (is_stale agent_id url name e)) [
    | inl s ↦ rw s (drop_stale_keeps P es (remove d e.0) (All-remove P d e.0 a))
    | inr s ↦ rw s (drop_stale_keeps P es d a)
  ]

  drop_stale_gone :
      (es : List (String × Credentials)) (d : Dict Credentials)
      → All (λ x. stale_at x.0 es ≡ false) (drop_stale agent_id url name es d)
  unfolding drop_stale any
  drop_stale_gone [] d = All-of _ d (λ x. refl)
  drop_stale_gone (e ∷ es) d = elim (Bool-cases (is_stale agent_id url name e)) [
    | inr s ↦ rw s (drop_stale_gone es d)
    | inl s ↦ rw s (
        All-both _ _ _ _ (λ x p q. ground arith)
          (drop_stale_keeps (λ x. (e.0 == x.0) ≡ false) es (remove d e.0) (remove_gone d e.0))
          (drop_stale_gone es (remove d e.0)))
  ]

  stale_self :
      (es : List (String × Credentials))
      → All (λ x. is_stale agent_id url name x ≡ true → stale_at x.0 es ≡ true) es
  unfolding any
  stale_self [] = tt
  stale_self (e ∷ es) =
      (λ s. ground (arith, eq_refl e.0), All-mono _ _ es (λ x h s. ground arith) (stale_self es))

  Fresh-drop_stale : (d : Dict Credentials) → Fresh (drop_stale agent_id url name d d)
  Fresh-drop_stale d =
      All-both (λ x. is_stale agent_id url name x ≡ true → stale_at x.0 d ≡ true)
        (λ x. stale_at x.0 d ≡ false) (λ x. is_stale agent_id url name x ≡ false)
        (drop_stale agent_id url name d d)
        (λ x p q. elim (Bool-cases (is_stale agent_id url name x)) [
          | inl s ↦ absurd (false≢true (sym q ∙ p s))
          | inr s ↦ s
        ])
        (drop_stale_keeps _ d d (stale_self d)) (drop_stale_gone d d)

  -- The first entry at the broker of that name is the one that is put.
  find-put :
      (d : Dict Credentials) (c : Credentials)
      → is_at url name c ≡ true
      → Fresh d
      → find_first (λ e. is_at url name e.1) (put d agent_id c) ≡ some (agent_id, c)
  unfolding find_first put
  find-put [] c h a = rw h refl
  find-put ((j, x) ∷ d) c h a = elim (Bool-cases (j == agent_id)) [
    | inl e ↦ rw (e, h) (ap (λ k. some (k, c)) ((eq_iff j agent_id).0 e))
    | inr e ↦
        let other : is_at url name x ≡ false = ground arith in rw (e, other) (find-put d c h a.1)
  ]

-- What is stored is found again by the broker and the name, and by the agent's id. Of the other
-- entries those at this broker under this name are gone, and the rest stays as it is.
pub find-store_credentials :
    (broker_url agent_id token name : String) (file : CredsFile)
    → let url = normalize_broker_url broker_url in
      let after = store_credentials broker_url agent_id token name file in
      (find_credentials broker_url name after ≡ some (entry url agent_id token name))
      × ((j : String)
          → get_credentials j after ≡ (
              if agent_id == j
              then some (entry url agent_id token name)
              else (if stale_at agent_id url name j (load file)
                  then none
                  else get_credentials j file)))
unfolding store_credentials find_credentials get_credentials
find-store_credentials broker_url agent_id token name file =
    let url = normalize_broker_url broker_url in
    let c = entry url agent_id token name in
    let d = drop_stale agent_id url name (load file) (load file) in
    let here : is_at url name c ≡ true = rw (eq_refl url, eq_refl name) refl in
    (
      ap with_key
          (find-put agent_id url name d c here (Fresh-drop_stale agent_id url name (load file))),
      λ j.
          get-put d agent_id j c
          ∙ rw (get-drop_stale agent_id url name (load file) (load file) j) refl,
    )
