-- ===== src/Client/Budget.antt =====
-- How many requests an operation sends, and under which sequence numbers
-- (internal/nsdp/client.go): a property of actions, with one rule for each way to build one.
pub mod Requests
use terraform_provider_netge.Base.{
  ℕ, zero, suc, ◌+◌, ◌%◌, ◌≤◌, ◌<◌, ◌≡◌, refl, sym, ap, ◌∙◌, Bool, true, false, Option, none, some,
  List, [], ◌∷◌, ◌++◌, append_assoc, append-nil, arith, length, take, drop, get_or, ◌==◌, ltb,
  if◌then◌else◌, Bytes, Result, err, ok, IsU32,
}
use terraform_provider_netge.Wire.{be32, cmd_set, Reply}
use terraform_provider_netge.Client.{
  Client, Session, Failure, Action, pure, fail, ◌>>=◌, continue, resume, unless_silent, is_no_reply,
  or_fail, with_session, next_seq, send, read_reply, attempt, retry, cmd_get_reply, no_reply,
  non_empty,
}

-- The sequence number of a request, and whether it is a SET.
abbrev pub number : Bytes → ℕ
number pkt = be32 (take 4 (drop 20 pkt))

abbrev pub is_set : Bytes → Bool
is_set pkt = get_or pkt 1 0 == cmd_set

abbrev pub sets : List Bytes → ℕ
sets [] = 0
sets (pkt ∷ pkts) = (if is_set pkt then 1 else 0) + sets pkts

-- Sequence numbers that rise from `low` on and stay below `high`.
abbrev pub Fresh : ℕ → List Bytes → ℕ → Type 0
Fresh low [] high = low ≤ high
Fresh low (pkt ∷ pkts) high = (low ≤ number pkt) × Fresh (suc (number pkt)) pkts high

-- From one session to another: at most `k` requests, under fresh numbers, at most `j` of them SETs.
pub record Run (k j : ℕ) (s s' : Session) : Type 0 where
  pub new : List Bytes
  pub appended : s'.sent ≡ s.sent ++ new
  pub fresh : Fresh s.seq new s'.seq
  pub requests : s'.seq ≤ s.seq + k
  pub settings : sets new ≤ j

pub length-Fresh :
    (low high : ℕ) (pkts : List Bytes) → Fresh low pkts high → low + length pkts ≤ high
length-Fresh low high [] h = omega (arith, h)
length-Fresh low high (pkt ∷ pkts) h =
    omega (arith, length-Fresh (suc (number pkt)) high pkts h.1, h.0)

Fresh-append :
    (low mid high : ℕ) (xs ys : List Bytes)
    → Fresh low xs mid
    → Fresh mid ys high
    → Fresh low (xs ++ ys) high
Fresh-append low mid high [] [] hx hy = omega (arith, hx, hy)
Fresh-append low mid high [] (y ∷ ys) hx hy = (omega (arith, hx, hy.0), hy.1)
Fresh-append low mid high (x ∷ xs) ys hx hy =
    (hx.0, Fresh-append (suc (number x)) mid high xs ys hx.1 hy)

sets-append : (xs ys : List Bytes) → sets (xs ++ ys) ≡ sets xs + sets ys
sets-append [] ys = omega arith
sets-append (x ∷ xs) ys = omega (arith, sets-append xs ys)

Run-none : (k j : ℕ) (s : Session) → Run k j s s
Run-none k j s = record {
  new = [];
  appended = sym (append-nil s.sent);
  fresh = omega arith;
  requests = omega arith;
  settings = omega arith;
}

Run-trans :
    (k k' j j' : ℕ) {s s' s'' : Session}
    → Run k j s s'
    → Run k' j' s' s''
    → Run (k + k') (j + j') s s''
Run-trans k k' j j' {s = s} {s' = s'} {s'' = s''} r r' = record {
  new = r.new ++ r'.new;
  appended =
      r'.appended ∙ ap (λ sent. sent ++ r'.new) r.appended ∙ append_assoc s.sent r.new r'.new;
  fresh = Fresh-append s.seq s'.seq s''.seq r.new r'.new r.fresh r'.fresh;
  requests = omega (arith, r.requests, r'.requests);
  settings = omega (arith, sets-append r.new r'.new, r.settings, r'.settings);
}

-- An action that sends at most `k` requests and `j` SETs, unless the uint32 counter wraps.
pub record Sends {A : Type 0} (k j : ℕ) (m : Action A) : Type 0 where
  pub at : (s : Session) → s.seq + k < 4294967296 → Run k j s (m s).1

module _ {A : Type 0} where
  pub Sends-quiet : (k j : ℕ) (m : Action A) → ((s : Session) → (m s).1 ≡ s) → Sends k j m
  Sends-quiet k j m quiet = record { at = λ s h. rw (quiet s) (Run-none k j s) }

  -- An action that changes other fields only.
  pub Sends-still :
      (k j : ℕ) (m : Action A)
      → ((s : Session) → ((m s).1.sent ≡ s.sent) × ((m s).1.seq ≡ s.seq))
      → Sends k j m
  Sends-still k j m still = record {
    at = λ s low. record {
      new = [];
      appended = (still s).0 ∙ sym (append-nil s.sent);
      fresh = omega (arith, (still s).1);
      requests = omega (arith, (still s).1);
      settings = omega arith;
    };
  }

  pub Sends-pure : (a : A) → Sends 0 0 (pure a)
  unfolding pure
  Sends-pure a = Sends-quiet 0 0 (pure a) λ s. refl

  pub Sends-fail : (k j : ℕ) (why : Failure) → Sends {A = A} k j (fail why)
  unfolding fail
  Sends-fail k j why = Sends-quiet k j (fail why) λ s. refl

  pub Sends-or_fail : (why : Failure) (o : Option A) → Sends 0 0 (or_fail why o)
  unfolding or_fail
  Sends-or_fail why none = Sends-fail 0 0 why
  Sends-or_fail why (some a) = Sends-pure a

  pub Sends-if :
      (k j : ℕ) (b : Bool) (m n : Action A)
      → Sends k j m
      → Sends k j n
      → Sends k j (if b then m else n)
  Sends-if k j true m n hm hn = hm
  Sends-if k j false m n hm hn = hn

  pub Sends-with_session :
      (k j : ℕ) (f : Session → Action A)
      → ((s : Session) → Sends k j (f s))
      → Sends k j (with_session f)
  unfolding with_session
  Sends-with_session k j f h = record { at = λ s low. (h s).at s low }

  -- A larger budget.
  pub Sends-more : (k j k' j' : ℕ) (m : Action A) → k ≤ k' → j ≤ j' → Sends k j m → Sends k' j' m
  Sends-more k j k' j' m hk hj h = record {
    at = λ s low.
        let r : Run k j s (m s).1 = h.at s (omega (arith, low, hk)) in
        record {
          new = r.new;
          appended = r.appended;
          fresh = r.fresh;
          requests = omega (arith, r.requests, hk);
          settings = omega (arith, r.settings, hj);
        };
  }

module _ {A B : Type 0} where
  Sends-continue :
      (k j : ℕ) (result : Result Failure A) (next : A → Action B)
      → ((a : A) → Sends k j (next a))
      → Sends k j (continue result next)
  unfolding continue
  Sends-continue k j (err why) next h = Sends-quiet k j (continue (err why) next) λ s. refl
  Sends-continue k j (ok a) next h = h a

  pub Sends-bind :
      (k j k' j' : ℕ) (first : Action A) (next : A → Action B)
      → Sends k j first
      → ((a : A) → Sends k' j' (next a))
      → Sends (k + k') (j + j') (first >>= next)
  unfolding ◌>>=◌
  Sends-bind k j k' j' first next h h' = record {
    at = λ s low.
        let r : Run k j s (first s).1 = h.at s (omega (arith, low)) in
        Run-trans k k' j j' r (
          (Sends-continue k' j' (first s).0 next h').at (first s).1
            (omega (arith, low, r.requests)));
  }

  Sends-resume :
      (k j : ℕ) (result : Result Failure A) (silent : Action B) (next : A → Action B)
      → Sends k j silent
      → ((a : A) → Sends k j (next a))
      → Sends k j (resume result silent next)
  unfolding resume
  Sends-resume k j (err why) silent next h h' =
      Sends-if k j (is_no_reply why) silent (fail why) h (Sends-fail k j why)
  Sends-resume k j (ok a) silent next h h' = h' a

  pub Sends-unless_silent :
      (k j k' j' : ℕ) (first : Action A) (silent : Action B) (next : A → Action B)
      → Sends k j first
      → Sends k' j' silent
      → ((a : A) → Sends k' j' (next a))
      → Sends (k + k') (j + j') (unless_silent first silent next)
  unfolding unless_silent
  Sends-unless_silent k j k' j' first silent next h hs h' = record {
    at = λ s low.
        let r : Run k j s (first s).1 = h.at s (omega (arith, low)) in
        Run-trans k k' j j' r (
          (Sends-resume k' j' (first s).0 silent next hs h').at (first s).1
            (omega (arith, low, r.requests)));
  }
