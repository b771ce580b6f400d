-- ===== src/Relay/Redis/Memory.antt =====
-- A store that behaves as `IsRedis` says: one table for each type of value, with no clock. It shows
-- that the hypotheses can be met, and lets the relay's code run in tests.
use termhop.Base.{
  ℕ, zero, suc, ◌+◌, ◌<◌, String, ◌≡◌, refl, eq_iff, Bool, ◌||◌, none, some, [], ◌∷◌, arith, ltb,
  if◌then◌else◌, length, is_some, get_or, select,
}
use termhop.Dict.{Dict, get, put, pop, get-put, get-pop}
use termhop.Relay.Redis.{Redis, IsRedis}

pub record Store : Type 0 where
  pub hashes : Dict (Dict String)
  pub counters : Dict ℕ
  pub texts : Dict String
  pub sets : Dict (Dict ℕ)

abbrev pub empty_store : Store
empty_store = record { hashes = []; counters = []; texts = []; sets = [] }

abbrev hash_at : Store → String → Dict String
hash_at s k = get_or [] (get s.hashes k)

abbrev set_at : Store → String → Dict ℕ
set_at s k = get_or [] (get s.sets k)

abbrev has_key : Store → String → Bool
has_key s k =
    is_some (get s.hashes k)
    || is_some (get s.counters k)
    || is_some (get s.texts k)
    || is_some (get s.sets k)

abbrev delete : Store → String → Store
delete s k = record {
  hashes = pop s.hashes k;
  counters = pop s.counters k;
  texts = pop s.texts k;
  sets = pop s.sets k;
}

abbrev expire_in : ℕ → Store → String → Store
expire_in zero s k = delete s k
expire_in (suc n) s k = s

abbrev next_value : Store → String → ℕ
next_value s k = get_or 0 (get s.counters k) + 1

abbrev set_text : ℕ → Store → String → String → Store
set_text zero s k v = s
set_text (suc n) s k v = record s { texts = put s.texts k v }

abbrev above : ℕ → Dict ℕ → Dict ℕ
above low = select (λ kv. ltb low kv.1)

abbrev pub memory : Redis Store
memory = record {
  exists = has_key;
  hset = λ s k f v. record s { hashes = put s.hashes k (put (hash_at s k) f v) };
  hget = λ s k f. get (hash_at s k) f;
  hgetall = hash_at;
  expire = λ s k n. expire_in n s k;
  persist = λ s k. s;
  del = delete;
  incr = λ s k. (next_value s k, record s { counters = put s.counters k (next_value s k) });
  counter = λ s k. get_or 0 (get s.counters k);
  set_ex = λ s k v n. set_text n s k v;
  zremrangebyscore = λ s k top. record s { sets = put s.sets k (above top (set_at s k)) };
  zadd = λ s k score m. record s { sets = put s.sets k (put (set_at s k) m score) };
  zcard = λ s k. length (set_at s k);
  zscore = λ s k m. get (set_at s k) m;
  zcount = λ s k low. length (above low (set_at s k));
}

length-put_new :
    (d : Dict ℕ) (k : String) (v : ℕ) → get d k ≡ none → length (put d k v) ≡ length d + 1
unfolding get put
length-put_new [] k v h = omega arith
length-put_new ((j, w) ∷ d) k v h = ground (arith, length-put_new d k v)

above-put_new :
    (d : Dict ℕ) (k : String) (v low : ℕ)
    → get d k ≡ none
    → length (above low (put d k v))
      ≡ (if ltb low v then length (above low d) + 1 else length (above low d))
unfolding get put
above-put_new [] k v low h = ground arith
above-put_new ((j, w) ∷ d) k v low h = ground (arith, above-put_new d k v low)

get-above-none : (d : Dict ℕ) (k : String) (low : ℕ) → get d k ≡ none → get (above low d) k ≡ none
unfolding get
get-above-none [] k low h = refl
get-above-none ((j, w) ∷ d) k low h = ground (arith, get-above-none d k low)

above-above :
    (d : Dict ℕ) (top low : ℕ)
    → length (above low (above top d)) ≡ length (above (if ltb top low then low else top) d)
above-above [] top low = refl
above-above ((j, w) ∷ d) top low = ground (arith, above-above d top low)

get-put_self {ℓ} : {V : Type ℓ} (d : Dict V) (k : String) (v : V) → get (put d k v) k ≡ some v
get-put_self d k v = ground (arith, get-put d k k v, eq_iff k k)

module _ (s : Store) (k : String) where
  kept : (n : ℕ) → 0 < n → expire_in n s k ≡ s
  kept zero h = absurd (omega arith)
  kept (suc n) h = refl

  texts_set : (v : String) (n : ℕ) → 0 < n → set_text n s k v ≡ record s { texts = put s.texts k v }
  texts_set v zero h = absurd (omega arith)
  texts_set v (suc n) h = refl

pub memory-IsRedis : IsRedis memory
memory-IsRedis = record {
  exists-hset =
      λ s k j f v. ground (arith, get-put s.hashes k j (put (hash_at s k) f v), eq_iff k j);
  hget-hset = λ s k j f g v. ground (
    arith,
    get-put s.hashes k j (put (hash_at s k) f v),
    get-put (hash_at s k) f g v,
    eq_iff k j,
    eq_iff f g,
  );
  hget_missing = λ s k f h. unfold get in ground arith;
  get-hgetall = λ s k f. refl;
  exists-expire = λ s k j n h. rw (kept s k n h);
  hget-expire = λ s k j f n h. rw (kept s k n h);
  exists-del = λ s k j. ground (
    arith,
    get-pop s.hashes k j,
    get-pop s.counters k j,
    get-pop s.texts k j,
    get-pop s.sets k j,
  );
  hget-del = λ s k j f. unfold get in ground (arith, get-pop s.hashes k j);
  incr_value = λ s k. refl;
  counter-incr = λ s k j. ground (arith, get-put s.counters k j (next_value s k), eq_iff k j);
  exists-incr = λ s k j. ground (arith, get-put s.counters k j (next_value s k), eq_iff k j);
  counter-expire = λ s k j n h. rw (kept s k n h);
  exists-set_ex =
      λ s k j v n h. rw (texts_set s k v n h) (ground (arith, get-put s.texts k j v, eq_iff k j));
  counter-set_ex = λ s k j v n h e. rw (texts_set s k v n h);
  zcard-zremrangebyscore = λ s k top. rw (get-put_self s.sets k (above top (set_at s k)));
  zcard-zadd = λ s k score m h.
      rw (get-put_self s.sets k (put (set_at s k) m score)) (length-put_new (set_at s k) m score h);
  zcount-zadd = λ s k score low m h.
      rw (get-put_self s.sets k (put (set_at s k) m score))
        (above-put_new (set_at s k) m score low h);
  zscore-zremrangebyscore = λ s k m top h.
      rw (get-put_self s.sets k (above top (set_at s k))) (get-above-none (set_at s k) m top h);
  zcount-zremrangebyscore = λ s k top low.
      rw (get-put_self s.sets k (above top (set_at s k))) (above-above (set_at s k) top low);
  zcard-expire = λ s k j n h. rw (kept s k n h);
  zcount-expire = λ s k j low n h. rw (kept s k n h);
}
