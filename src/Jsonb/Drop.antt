-- ===== src/Jsonb/Drop.antt =====
-- src/iterable_jsonb.rs: the drop of a `TokenIterator`, which reads on to the end so that PostgreSQL's
-- iterator frees what it has allocated.
use promscale_extension.Prelude.{
  ℕ, zero, suc, ◌≡◌, ◌≢◌, refl, ap, Bool, true, false, Option, none, some, List, [], ◌∷◌, Result,
  ok, err, ◌>>=◌, out_of_fuel, first_step,
}
use promscale_extension.Jsonb.Tokens.{
  Event, wjb_begin_array, wjb_end_array, wjb_begin_object, wjb_end_object, wjb_key, wjb_value,
  wjb_elem, wjb_other, Token, begin_array, end_array, begin_object, end_object, extract_value_token,
  key_token, emit, TokenIterator, next_from, next, and_then, collect,
}

-- The events that PostgreSQL's iterator still has after a call of `next`.
unfoldable pub events_left : Bool → List Event → List Event
events_left raw_scalar [] = []
events_left raw_scalar (wjb_begin_array true ∷ rest) = events_left true rest
events_left true (wjb_end_array ∷ rest) = events_left true rest
events_left raw_scalar (e ∷ rest) = rest

-- `last`: calls of `next` until there is no token. What PostgreSQL's iterator has left then.
abbrev pub to_the_end :
    TokenIterator
    → (TokenIterator → Result (List Event))
    → Option (Token × TokenIterator)
    → Result (List Event)
to_the_end it rest none = ok (events_left it.raw_scalar it.pg_jsonb_iter)
to_the_end it rest (some (t, it')) = rest it'

unfoldable pub last : ℕ → TokenIterator → Result (List Event)
last zero it = err out_of_fuel
last (suc fuel) it = do n ← next it; to_the_end it (last fuel) n

-- `drop`, which calls `next` once and `last` if that returns a token.
unfoldable pub drop_iterator : ℕ → TokenIterator → Result (List Event)
drop_iterator fuel it = do n ← next it; to_the_end it (last fuel) n

emit-some :
    (rest : List Event) (raw_scalar : Bool) (token : Result Token)
    → emit rest raw_scalar token ≢ ok none
emit-some rest raw_scalar (ok t) e = cc
emit-some rest raw_scalar (err f) e = cc

-- A call without a token leaves nothing.
events_left-none :
    (raw_scalar : Bool) (es : List Event)
    → next_from raw_scalar es ≡ ok none
    → events_left raw_scalar es ≡ []
unfolding events_left next_from
events_left-none raw_scalar [] e = refl
events_left-none raw_scalar (wjb_begin_array true ∷ rest) e = events_left-none true rest e
events_left-none raw_scalar (wjb_begin_array false ∷ rest) e =
    absurd (emit-some rest raw_scalar (ok begin_array) e)
events_left-none true (wjb_end_array ∷ rest) e = events_left-none true rest e
events_left-none false (wjb_end_array ∷ rest) e = absurd (emit-some rest false (ok end_array) e)
events_left-none raw_scalar (wjb_begin_object ∷ rest) e =
    absurd (emit-some rest raw_scalar (ok begin_object) e)
events_left-none raw_scalar (wjb_end_object ∷ rest) e =
    absurd (emit-some rest raw_scalar (ok end_object) e)
events_left-none raw_scalar (wjb_key v ∷ rest) e =
    absurd (emit-some rest raw_scalar (extract_value_token v >>= key_token) e)
events_left-none raw_scalar (wjb_value v ∷ rest) e =
    absurd (emit-some rest raw_scalar (extract_value_token v) e)
events_left-none raw_scalar (wjb_elem v ∷ rest) e =
    absurd (emit-some rest raw_scalar (extract_value_token v) e)
events_left-none raw_scalar (wjb_other r ∷ rest) e = cc

nothing_left :
    (it : TokenIterator) → next it ≡ ok none → events_left it.raw_scalar it.pg_jsonb_iter ≡ []
unfolding next
nothing_left it called = events_left-none it.raw_scalar it.pg_jsonb_iter called

-- One call of `next` and what follows it.
step-collect :
    (fuel : ℕ) (it : TokenIterator) (n : Option (Token × TokenIterator)) (ts : List Token)
    → next it ≡ ok n
    → and_then (collect fuel) n ≡ ok ts
    → ((it' : TokenIterator) (us : List Token) → collect fuel it' ≡ ok us → last fuel it' ≡ ok [])
    → (next it >>= to_the_end it (last fuel)) ≡ ok []
step-collect fuel it none ts called e rest = rw called (ap ok (nothing_left it called))
step-collect fuel it (some (t, it')) ts called e rest =
    let (us, read, more) = first_step (collect fuel it') (λ us. ok (t ∷ us)) ts e in
    rw called (rest it' us read)

-- Where the rest of the tokens can be read, `last` reads them all, and nothing is left.
last-collect :
    (fuel : ℕ) (it : TokenIterator) (ts : List Token)
    → collect fuel it ≡ ok ts
    → last fuel it ≡ ok []
unfolding collect last
last-collect zero it ts e = cc
last-collect (suc fuel) it ts e =
    let (n, called, more) = first_step (next it) (and_then (collect fuel)) ts e in
    step-collect fuel it n ts called more (last-collect fuel)

-- An iterator of which the rest of the tokens can be read, however many were read before, leaves
-- PostgreSQL's iterator at its end when it is dropped.
pub drop_iterator-collect :
    (fuel : ℕ) (it : TokenIterator) (ts : List Token)
    → collect (suc fuel) it ≡ ok ts
    → drop_iterator fuel it ≡ ok []
unfolding collect drop_iterator
drop_iterator-collect fuel it ts e =
    let (n, called, more) = first_step (next it) (and_then (collect fuel)) ts e in
    step-collect fuel it n ts called more (last-collect fuel)
