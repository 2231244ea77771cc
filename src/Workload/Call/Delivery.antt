-- ===== src/Workload/Call/Delivery.antt =====
-- `Call` of internal/workload/vsock.go: what is written when, and what is returned.
use firefork_ai.Prelude.{
  ℕ, zero, suc, ◌+◌, ◌-◌, ◌≤◌, ◌≡◌, refl, List, [], ◌∷◌, ◌++◌, Option, none, some, Result, ok, err,
  length, take, ◌⊎◌, inl, inr, Option-cases, arith,
}
use firefork_ai.Prelude.Text.{Text, codes}
use firefork_ai.Workload.Vsock
use firefork_ai.Workload.Vsock.{parse_ack}
use firefork_ai.Workload.Call.{
  Error, write_failed, read_failed, max_response_bytes, newline, Peer, push_byte, cut_line,
  read_line, outgoing, decoded, response,
}

cut_line-append :
    (n : ℕ) (s l r : Text) → cut_line n s ≡ some (l, r) → (s ≡ l ++ r) × (length l ≤ n)
unfolding cut_line push_byte
cut_line-append zero s l r e = absurd (ground arith)
cut_line-append (suc n) [] l r e = absurd (ground arith)
cut_line-append (suc n) (c ∷ s) l r e = elim (Option-cases (cut_line n s)) [
  | inl f ↦ ground arith
  | inr ((l', r'), f) ↦ ground (arith, cut_line-append n s l' r' f)
]

read_line-append :
    (n : ℕ) (s l r : Text) (e : Error) → read_line n s e ≡ ok (l, r) → (s ≡ l ++ r) × (length l ≤ n)
unfolding read_line
read_line-append n s l r e h = elim (Option-cases (cut_line n s)) [
  | inl f ↦ absurd (ground arith)
  | inr (p, f) ↦ cut_line-append n s l r (ground arith)
]

module _ {V : Type 0} (encode_key : Text → Text) (encode : V → Option Text) (quote : Text → V)
    (mac : Text → Text → Text) (marshal : List (Text × V) → Option Text)
    (parse : Text → Option (List (Text × V))) (p : Peer) (port secret : Text)
    (cmd : List (Text × V)) where
  abbrev hello : Text
  hello = codes "CONNECT " ++ port ++ newline

  -- The command went out, or a part of it before the write failed: to a proxy whose answer was
  -- accepted, signed if there is a secret. What is returned is the line that came after it, and the two
  -- lines read keep within the bound.
  pub record IsDelivered (r : List Text × Result Error (List (Text × V))) : Type 0 where
    pub line : Text
    pub rest : Text
    pub out : List (Text × V)
    pub body : Text
    pub came : p.before ≡ line ++ rest
    pub accepted : parse_ack line ≡ ok tt
    pub authentic : outgoing encode_key encode quote mac marshal parse secret cmd ≡ some out
    pub text : marshal out ≡ some body
    pub sent :
        (r.0 ≡ hello ∷ (body ++ newline) ∷ [])
        ⊎ ((n : ℕ) × (r.0 ≡ hello ∷ take n (body ++ newline) ∷ []) × (r.1 ≡ err write_failed))
    pub reply :
        (m : List (Text × V))
        → r.1 ≡ ok m
        → (l : Text) × (t : Text) × (parse l ≡ some m)
          × (rest ++ p.answer (body ++ newline) ≡ l ++ t)
          × (length line + length l ≤ max_response_bytes + 1)

  -- No byte of the command went out, and the call failed.
  abbrev pub IsWithheld : List Text × Result Error (List (Text × V)) → Type 0
  IsWithheld r =
      ((r.0 ≡ []) ⊎ (r.0 ≡ hello ∷ []) ⊎ ((n : ℕ) × (r.0 ≡ take n hello ∷ [])))
      × ((e : Error) × (r.1 ≡ err e))

  response_lem :
      (n : ℕ) (s : Text) (m : List (Text × V)) (q : Result Error (Text × Text))
      → n ≤ max_response_bytes + 1
      → read_line (max_response_bytes + 1 - n) s read_failed ≡ q
      → response encode_key encode quote mac marshal parse q ≡ ok m
      → (l : Text) × (t : Text) × (parse l ≡ some m)
        × (s ≡ l ++ t)
        × (n + length l ≤ max_response_bytes + 1)
  unfolding response decoded
  response_lem n s m (err e) b q h = absurd (ground arith)
  response_lem n s m (ok (l, t)) b q h =
      let (e, k) = read_line-append (max_response_bytes + 1 - n) s l t read_failed q in
      elim (Option-cases (parse l)) [
        | inl f ↦ absurd (ground arith)
        | inr (v, f) ↦ (l, t, ground arith, e, omega arith)
      ]

  -- `exchange` after an accepted line, for a body that can be written or not.
  module _ (line rest : Text) (out : List (Text × V)) (c : p.before ≡ line ++ rest)
      (b : length line ≤ max_response_bytes + 1) (a : parse_ack line ≡ ok tt)
      (g : outgoing encode_key encode quote mac marshal parse secret cmd ≡ some out) where
    written :
        (body : Text) (cuts : Option ℕ)
        → marshal out ≡ some body
        → let sent = body ++ newline in
          let q =
            read_line (max_response_bytes + 1 - length line) (rest ++ p.answer sent) read_failed in
          let r : List Text × Result Error (List (Text × V)) = elim cuts [
            | none ↦ (hello ∷ sent ∷ [], response encode_key encode quote mac marshal parse q)
            | some n ↦ (hello ∷ take n sent ∷ [], err write_failed)
          ] in
          IsDelivered r
    written body none m = record {
      line = line;
      rest = rest;
      out = out;
      body = body;
      came = c;
      accepted = a;
      authentic = g;
      text = m;
      sent = inl refl;
      reply = λ v e. response_lem (length line) _ v _ b refl e;
    }
    written body (some n) m = record {
      line = line;
      rest = rest;
      out = out;
      body = body;
      came = c;
      accepted = a;
      authentic = g;
      text = m;
      sent = inr (n, refl, refl);
      reply = λ v e. absurd (ground arith);
    }
