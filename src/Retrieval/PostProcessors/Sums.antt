-- ===== src/Retrieval/PostProcessors/Sums.antt =====
-- The score of a key is the sum of its shares, and its representative has its key.
use rag_agent.Prelude.{
  ℕ, suc, String, str_eq, ◌≡◌, refl, ap, sym, ◌∙◌, subst, Bool, true, false, Option, none, some,
  List, [], ◌∷◌, if◌then◌else◌, Option-cases, str_eq-cases, inl, inr,
}
use rag_agent.Dict.{get, get-put}
use rag_agent.Dict.Size.{DistinctKeys, put-DistinctKeys}
use rag_agent.Retrieval.PostProcessors.{
  RetrievedChunk, SearchChannelResult, set_default, or_default, Tally, new_tally, Scores,
  tally_chunk, tally_chunks, tally_results,
}

module _ {S X : Type 0} (ops : Scores S) (k : String) where
  -- the shares of a key, added in the order in which its chunks come; none without a chunk
  abbrev pub sum_chunks : String → ℕ → List (RetrievedChunk S X) → Option S → Option S
  sum_chunks channel rank [] sum = sum
  sum_chunks channel rank (c ∷ cs) sum = sum_chunks channel (suc rank) cs (
      if str_eq c.key k
      then some (ops.plus (or_default ops.zero_score sum) (ops.share channel rank))
      else sum)

  abbrev pub sum_results : List (SearchChannelResult S X) → Option S → Option S
  sum_results [] sum = sum
  sum_results (r ∷ rs) sum = sum_results rs (sum_chunks r.channel_type 0 r.chunks sum)

  get-tally_chunk :
      (channel : String) (rank : ℕ) (c : RetrievedChunk S X) (t : Tally S X)
      → get k (tally_chunk ops channel rank c t).scores ≡ (
          if str_eq c.key k
          then some (ops.plus (or_default ops.zero_score (get k t.scores)) (ops.share channel rank))
          else get k t.scores)
  unfolding tally_chunk
  get-tally_chunk channel rank c t = elim (str_eq-cases c.key k) [
    | inl (p, e) ↦
        get-put c.key k
          (ops.plus (or_default ops.zero_score (get c.key t.scores)) (ops.share channel rank))
          t.scores
        ∙ rw e (
            ap
              (λ j.
                some
                  (ops.plus (or_default ops.zero_score (get j t.scores)) (ops.share channel rank)))
              p)
    | inr (p, e) ↦
        get-put c.key k
          (ops.plus (or_default ops.zero_score (get c.key t.scores)) (ops.share channel rank))
          t.scores
        ∙ rw e refl
  ]

  get-tally_chunks :
      (channel : String) (rank : ℕ) (cs : List (RetrievedChunk S X)) (t : Tally S X)
      → get k (tally_chunks ops channel rank cs t).scores
        ≡ sum_chunks channel rank cs (get k t.scores)
  unfolding tally_chunks
  get-tally_chunks channel rank [] t = refl
  get-tally_chunks channel rank (c ∷ cs) t =
      get-tally_chunks channel (suc rank) cs (tally_chunk ops channel rank c t)
      ∙ ap (sum_chunks channel (suc rank) cs) (get-tally_chunk channel rank c t)

  pub get-tally_results :
      (rs : List (SearchChannelResult S X)) (t : Tally S X)
      → get k (tally_results ops rs t).scores ≡ sum_results rs (get k t.scores)
  unfolding tally_results
  get-tally_results [] t = refl
  get-tally_results (r ∷ rs) t =
      get-tally_results rs (tally_chunks ops r.channel_type 0 r.chunks t)
      ∙ ap (sum_results rs) (get-tally_chunks r.channel_type 0 r.chunks t)

subst2 :
    {A B : Type 0} (P : A → B → Type 0) {a a' : A} {b b' : B} → a ≡ a' → b ≡ b' → P a b → P a' b'
subst2 P {a} {a'} {b} {b'} p q x = subst (λ y. P a' y) q (subst (λ y. P y b) p x)

if_true : {A : Type 0} (b : Bool) (x y : A) → b ≡ true → (if b then x else y) ≡ x
if_true b x y e = rw e refl

if_false : {A : Type 0} (b : Bool) (x y : A) → b ≡ false → (if b then x else y) ≡ y
if_false b x y e = rw e refl

pub get-set_default :
    {V : Type 0} (j k : String) (v : V) (d : List (String × V))
    → get k (set_default j v d) ≡ (if str_eq j k then some (or_default v (get k d)) else get k d)
get-set_default j k v d = elim (Option-cases (get j d)) [
  | inl q ↦ rw (q, set_default) (get-put j k v d ∙ absent q)
  | inr (x, q) ↦ rw (q, set_default) (present x q)
]
  where
    absent :
        get j d ≡ none
        → (if str_eq j k then some v else get k d)
          ≡ (if str_eq j k then some (or_default v (get k d)) else get k d)
    absent q = elim (str_eq-cases j k) [
      | inl (p, e) ↦ rw e (ap (λ o. some (or_default v o)) (sym q ∙ ap (λ i. get i d) p))
      | inr (p, e) ↦ rw e refl
    ]

    present :
        (x : _)
        → get j d ≡ some x
        → get k d ≡ (if str_eq j k then some (or_default v (get k d)) else get k d)
    present x q = elim (str_eq-cases j k) [
      | inl (p, e) ↦
          rw e
            (let g = sym (ap (λ i. get i d) p) ∙ q in g ∙ ap (λ o. some (or_default v o)) (sym g))
      | inr (p, e) ↦ rw e refl
    ]

module _ {S X : Type 0} where
  -- a key with a score has a representative, which has the key
  abbrev HasOwn : String → Option S → Option (RetrievedChunk S X) → Type 0
  HasOwn k none none = Unit
  HasOwn k none (some c) = ⊥
  HasOwn k (some s) none = ⊥
  HasOwn k (some s) (some c) = c.key ≡ k

  -- the dictionaries of a tally belong together
  abbrev pub IsTally : Tally S X → Type 0
  IsTally t =
      ((k : String) → HasOwn k (get k t.scores) (get k t.representatives)) × DistinctKeys t.scores

  or_default-key :
      (k : String) (c : RetrievedChunk S X) (o : Option S) (q : Option (RetrievedChunk S X))
      → c.key ≡ k
      → HasOwn k o q
      → (or_default c q).key ≡ k
  or_default-key k c none none p h = p
  or_default-key k c none (some x) p h = absurd h
  or_default-key k c (some s) none p h = absurd h
  or_default-key k c (some s) (some x) p h = h

  tally_chunk-HasOwn :
      (ops : Scores S) (channel : String) (rank : ℕ) (c : RetrievedChunk S X) (t : Tally S X)
      (k : String)
      → HasOwn k (get k t.scores) (get k t.representatives)
      → HasOwn k
          (get k (tally_chunk ops channel rank c t).scores)
          (get k (tally_chunk ops channel rank c t).representatives)
  unfolding tally_chunk
  tally_chunk-HasOwn ops channel rank c t k h = elim (str_eq-cases c.key k) [
    | inl (p, e) ↦
        subst2 (HasOwn k)
          (sym (get-tally_chunk ops k channel rank c t ∙ if_true (str_eq c.key k) _ _ e))
          (sym (get-set_default c.key k c t.representatives ∙ if_true (str_eq c.key k) _ _ e))
          (or_default-key k c (get k t.scores) (get k t.representatives) p h)
    | inr (p, e) ↦
        subst2 (HasOwn k)
          (sym (get-tally_chunk ops k channel rank c t ∙ if_false (str_eq c.key k) _ _ e))
          (sym (get-set_default c.key k c t.representatives ∙ if_false (str_eq c.key k) _ _ e)) h
  ]

  tally_chunks-IsTally :
      (ops : Scores S) (channel : String) (rank : ℕ) (cs : List (RetrievedChunk S X))
      (t : Tally S X)
      → IsTally t
      → IsTally (tally_chunks ops channel rank cs t)
  unfolding tally_chunks
  tally_chunks-IsTally ops channel rank [] t h = h
  tally_chunks-IsTally ops channel rank (c ∷ cs) t h =
      tally_chunks-IsTally ops channel (suc rank) cs (tally_chunk ops channel rank c t) (
        (λ k. tally_chunk-HasOwn ops channel rank c t k (h.0 k)),
        unfold tally_chunk in put-DistinctKeys c.key _ t.scores h.1,
      )

  tally_results-IsTally :
      (ops : Scores S) (rs : List (SearchChannelResult S X)) (t : Tally S X)
      → IsTally t
      → IsTally (tally_results ops rs t)
  unfolding tally_results
  tally_results-IsTally ops [] t h = h
  tally_results-IsTally ops (r ∷ rs) t h =
      tally_results-IsTally ops rs (tally_chunks ops r.channel_type 0 r.chunks t)
        (tally_chunks-IsTally ops r.channel_type 0 r.chunks t h)

  pub new-IsTally :
      (ops : Scores S) (rs : List (SearchChannelResult S X))
      → IsTally (tally_results ops rs new_tally)
  unfolding get
  new-IsTally ops rs = tally_results-IsTally ops rs new_tally ((λ k. tt), tt)

  pub own :
      (t : Tally S X) (k : String) (s : S)
      → IsTally t
      → get k t.scores ≡ some s
      → (c : RetrievedChunk S X) × (get k t.representatives ≡ some c) × (c.key ≡ k)
  own t k s h e = elim (Option-cases (get k t.representatives)) [
    | inl q ↦ absurd (subst2 (HasOwn k) e q (h.0 k))
    | inr (c, q) ↦ (c, q, subst2 (HasOwn k) e q (h.0 k))
  ]
