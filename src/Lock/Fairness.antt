-- ===== src/Lock/Fairness.antt =====
-- Sequences of calls of AsyncLock.ts: who holds the lock, and who waits in which order.
use compaction.Prelude.{
  ℕ, ◌+◌, Option, none, some, Bool, true, false, List, [], ◌∷◌, ◌++◌, length, length-append, ◌≡◌,
  refl, sym, ap, ◌∙◌, arith, if◌then◌else◌, append_nil, append_assoc,
}
use compaction.Prelude.Exec.{Result, ok, err}
use compaction.Lock.{AsyncLock, new, acquire, release}

pub data Call (W : Type 0) : Type 0 where
  acquire_by : W → Call W
  release_it : Call W

-- The lock, the callers in the order of their calls and of their grants, and the releases.
pub record History (W : Type 0) : Type 0 where
  pub lock : AsyncLock W
  pub requested : List W
  pub granted : List W
  pub released : ℕ

module _ {W : Type 0} where
  abbrev record_acquire : W → History W → Result Bool × AsyncLock W → History W
  record_acquire w h (ok at_once, l) = record h {
    lock = l;
    requested = h.requested ++ w ∷ [];
    granted = if at_once then h.granted ++ w ∷ [] else h.granted;
  }
  record_acquire w h (err e, l) = record h { lock = l }

  abbrev record_release : History W → Result (Option W) × AsyncLock W → History W
  record_release h (ok none, l) = record h { lock = l; released = h.released + 1 }
  record_release h (ok (some w), l) = record h {
    lock = l;
    released = h.released + 1;
    granted = h.granted ++ w ∷ [];
  }
  record_release h (err e, l) = record h { lock = l }

  abbrev pub follow : History W → Call W → History W
  follow h (acquire_by w) = record_acquire w h (acquire w h.lock)
  follow h release_it = record_release h (release h.lock)

  abbrev pub follow_all : History W → List (Call W) → History W
  follow_all h [] = h
  follow_all h (c ∷ cs) = follow_all (follow h c) cs

  abbrev pub fresh : History W
  fresh = record { lock = new; requested = []; granted = []; released = 0 }

-- Grants follow the order of the calls, and the lock is taken by one caller, or free with no queue.
pub record IsFair {W : Type 0} (h : History W) : Type 0 where
  pub in_order : h.granted ++ h.lock.queue ≡ h.requested
  pub exclusive : length h.granted ≡ h.released + (if h.lock.locked then 1 else 0)
  pub idle : h.lock.locked ≡ false → h.lock.queue ≡ []

module _ {W : Type 0} where
  abbrev state : Bool → List W → List W → List W → ℕ → History W
  state b queue requested granted released = record {
    lock = record { locked = b; queue = queue };
    requested = requested;
    granted = granted;
    released = released;
  }

  -- One more at the end of the grants, from the front of the queue.
  next_grant : (g q : List W) (w : W) → (g ++ w ∷ []) ++ q ≡ g ++ (w ∷ q)
  next_grant g q w = append_assoc g (w ∷ []) q

  call-IsFair :
      (b : Bool) (q r g : List W) (n : ℕ) (c : Call W)
      → IsFair (state b q r g n)
      → IsFair (follow (state b q r g n) c)
  unfolding acquire release
  call-IsFair false q r g n (acquire_by w) f = record {
    in_order =
        rw (f.idle refl) (append_nil (g ++ w ∷ []))
        ∙ ap (λ (xs : List W). xs ++ w ∷ []) (sym (append_nil g) ∙ rw (← f.idle refl) f.in_order);
    exclusive = omega (arith, length-append g (w ∷ []), f.exclusive);
    idle = λ e. f.idle refl;
  }
  call-IsFair true q r g n (acquire_by w) f = record {
    in_order = sym (append_assoc g q (w ∷ [])) ∙ ap (λ (xs : List W). xs ++ w ∷ []) f.in_order;
    exclusive = f.exclusive;
    idle = λ e. cc;
  }
  call-IsFair false q r g n release_it f = f
  call-IsFair true [] r g n release_it f = record {
    in_order = f.in_order;
    exclusive = omega (arith, f.exclusive);
    idle = λ e. refl;
  }
  call-IsFair true (w ∷ q) r g n release_it f = record {
    in_order = next_grant g q w ∙ f.in_order;
    exclusive = omega (arith, length-append g (w ∷ []), f.exclusive);
    idle = λ e. cc;
  }

  follow_all-IsFair : (cs : List (Call W)) (h : History W) → IsFair h → IsFair (follow_all h cs)
  follow_all-IsFair [] h f = f
  follow_all-IsFair (c ∷ cs) h f =
      follow_all-IsFair cs (follow h c)
        (call-IsFair h.lock.locked h.lock.queue h.requested h.granted h.released c f)

-- Over any sequence of calls of acquire and release, where a release without the lock throws and
-- changes nothing, the lock is granted in the order of the calls, those that wait being exactly the
-- queue; it is held exactly while one more grant than releases was made; and nobody waits while it
-- is free.
pub lock-IsFair : {W : Type 0} (cs : List (Call W)) → IsFair (follow_all fresh cs)
lock-IsFair cs =
    follow_all-IsFair cs fresh (record { in_order = refl; exclusive = refl; idle = λ e. refl })
