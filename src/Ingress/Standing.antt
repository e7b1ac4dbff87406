-- ===== src/Ingress/Standing.antt =====
-- What holds of a `TCPIngress` between two rounds of `try_send`.
use udptun.Prelude.{
  ℕ, zero, suc, ◌+◌, ◌<◌, ◌≡◌, ◌⊎◌, inl, inr, refl, sym, ap, subst, ◌∙◌, true, false, List, [], ◌∷◌,
  ◌++◌, Option, some, arith, Outcome, ok, length, take, drop, concat, ◌==◌, find, put, find-put,
  Bool-cases,
}
use udptun.Streamer.{Streamer}
use udptun.Wire.{Bytes}
use udptun.Ingress.{Ingress, Sent, Step, erase_source}

pub take-nil : (n : ℕ) → take {A = ℕ} n [] ≡ []
take-nil zero = refl
take-nil (suc n) = refl

-- Taking some, and then some of the rest.
pub take-drop : (n k : ℕ) (xs : Bytes) → take n xs ++ take k (drop n xs) ≡ take (n + k) xs
take-drop zero k xs = let e : k ≡ 0 + k = omega arith in ap (λ j. take j xs) e
take-drop (suc n) k [] = rw (take-nil k, take-nil (suc n + k))
take-drop (suc n) k (x ∷ xs) =
    let e : suc n + k ≡ suc (n + k) = omega arith in rw e (ap (λ ys. x ∷ ys) (take-drop n k xs))

pub erase_source_head : (k : ℕ) (ks : List ℕ) → erase_source k (k ∷ ks) ≡ ks
erase_source_head k ks = ground arith

module _ (streamer : Streamer) where
  open streamer use {S, describe, consumed, failed, IsFrame, Idle, Sending}

  abbrev pub AllFrames : List Bytes → Type 0
  AllFrames [] = Unit
  AllFrames (f ∷ fs) = IsFrame f × AllFrames fs

  pub AllFrames-append : (fs gs : List Bytes) → AllFrames fs → AllFrames gs → AllFrames (fs ++ gs)
  AllFrames-append [] gs a b = b
  AllFrames-append (f ∷ fs) gs (x, a) b = (x, AllFrames-append fs gs a b)

  -- Every pointer of the queue is to a source.
  abbrev pub Known : List ℕ → List (ℕ × S) → Type 0
  Known [] m = Unit
  Known (k ∷ ks) m = ((s : S) × (find k m ≡ some s)) × Known ks m

  pub Known-put :
      (ks : List ℕ) (k : ℕ) (s : S) (m : List (ℕ × S)) → Known ks m → Known ks (put k s m)
  Known-put [] k s m w = tt
  Known-put (j ∷ js) k s m ((t, e), w) = (found, Known-put js k s m w)
    where
      found : (s' : S) × (find j (put k s m) ≡ some s')
      found = elim (Bool-cases (k == j)) [
        | inl b ↦ (s, find-put j k s m ∙ rw b refl)
        | inr b ↦ (t, find-put j k s m ∙ rw b e)
      ]

  -- All sources, or all but one, are between two messages.
  abbrev pub AllIdle : List (ℕ × S) → Type 0
  AllIdle m = (j : ℕ) (s : S) → find j m ≡ some s → Idle s

  abbrev pub OthersIdle : ℕ → List (ℕ × S) → Type 0
  OthersIdle k m = (j : ℕ) (s : S) → (k == j) ≡ false → find j m ≡ some s → Idle s

  same_some : (s t : S) → ◌≡◌ {A = Option S} (some s) (some t) → s ≡ t
  same_some s t h = cc

  pub put-AllIdle :
      (k : ℕ) (s : S) (m : List (ℕ × S)) → OthersIdle k m → Idle s → AllIdle (put k s m)
  put-AllIdle k s m w v j t e = elim (Bool-cases (k == j)) [
    | inl b ↦ subst Idle (same_some s t (sym (find-put j k s m ∙ rw b refl) ∙ e)) v
    | inr b ↦ w j t b (sym (find-put j k s m ∙ rw b refl) ∙ e)
  ]

  pub put-OthersIdle :
      (k : ℕ) (s : S) (m : List (ℕ × S)) → OthersIdle k m → OthersIdle k (put k s m)
  put-OthersIdle k s m w j t b e = w j t b (sym (find-put j k s m ∙ rw b refl) ∙ e)

  pub find-put_same : (k : ℕ) (s : S) (m : List (ℕ × S)) → find k (put k s m) ≡ some s
  find-put_same k s m = let b : (k == k) ≡ true = ground arith in find-put k k s m ∙ rw b refl

  -- Between two messages: the wire has whole messages.
  pub record Between (i : Ingress streamer) : Type 0 where
    pub same : i.streamers ≡ i.streamer_queue
    pub known : Known i.streamer_queue i.sources
    pub idle : AllIdle i.sources
    pub frames : List Bytes
    pub all_frames : AllFrames frames
    pub on_wire : i.wire ≡ concat frames

  -- In the middle of a message of the source at the head.
  pub record Midst (i : Ingress streamer) : Type 0 where
    pub same : i.streamers ≡ i.streamer_queue
    pub known : Known i.streamer_queue i.sources
    pub head : ℕ
    pub tail : List ℕ
    pub queued : i.streamer_queue ≡ head ∷ tail
    pub source : S
    pub found : find head i.sources ≡ some source
    pub message : Bytes
    pub reached : ℕ
    pub sending : Sending message reached source
    pub others : OthersIdle head i.sources
    pub frames : List Bytes
    pub all_frames : AllFrames frames
    pub on_wire : i.wire ≡ concat frames ++ take reached message

  -- The connection failed, perhaps within a message, and every source starts its message again.
  pub record Broken (i : Ingress streamer) : Type 0 where
    pub closed : i.sock ≡ false
    pub delay : i.retry ≡ some 30
    pub same : i.streamers ≡ i.streamer_queue
    pub known : Known i.streamer_queue i.sources
    pub idle : AllIdle i.sources

  abbrev pub Standing : Ingress streamer → Type 0
  Standing i = Between i ⊎ Midst i

  -- How a round can end, with fewer answers or fewer sources left for the next.
  abbrev pub Ends : List Sent → Ingress streamer → Outcome (Step streamer) → Type 0
  Ends rs i r =
      ((j : Ingress streamer) × (r ≡ ok (Step.returns j)) × (Standing j ⊎ Broken j))
      ⊎ ((rest : List Sent) × (j : Ingress streamer) × (r ≡ ok (Step.again rest j))
          × Standing j
          × (length rest + length j.streamer_queue < length rs + length i.streamer_queue))
