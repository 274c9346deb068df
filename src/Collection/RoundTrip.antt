-- ===== src/Collection/RoundTrip.antt =====
-- `get` after a put and after a delete.
use noydb.Base.{
  ◌≡◌, ◌≢◌, ◌∙◌, sym, refl, ap, Option, none, some, lookup, Text, dec_text, if_pos, if_neg, arith,
}
use noydb.Json.{Json}
use noydb.Store.{ok, IsLawful}
use noydb.Collection.{
  Config, Collection, Draws, next, value_of, validated, schema_input, hydrate_if, ensure_hydrated,
  get, get_from,
}
use noydb.Collection.Writes
use noydb.Collection.Sound.{IsSound}
use noydb.Collection.Mirror.{IsMirror}
use noydb.Collection.Settled.{IsWilling, IsReady}
use noydb.Collection.Willing.{writes_settle}

module _ {S : Type 0} (cfg : Config S) (l : IsLawful cfg.adapter) where
  -- A collection that mirrors its store answers from its cache.
  get-IsMirror :
      (id : Text) (s : Collection S)
      → IsMirror cfg l s
      → get cfg id s ≡ (s, ok (value_of (lookup dec_text id s.cache)))
  unfolding get ensure_hydrated
  get-IsMirror id s m =
      ap (λ o. get_from cfg id o s) m.eager
      ∙ ap (λ b. next (λ u t. (t, ok (value_of (lookup dec_text id t.cache)))) (hydrate_if cfg b s))
          m.is_hydrated

  -- What get answers at a record, and what it answers at the others.
  abbrev pub Shows : Text → Option Json → Collection S → Collection S → Type 0
  Shows id o s t =
      ((get cfg id t).1 ≡ ok o) × ((j : Text) → j ≢ id → (get cfg j t).1 ≡ (get cfg j s).1)

  -- On a collection that mirrors its store, with a ledger whose entries can be read, if there is
  -- one, where the store answers, nothing that is called refuses and the parameters are sound, the
  -- checks of references leaving the records of this collection as they are: after the put of a
  -- value that the schema takes, get answers the record as the schema made it, and after a delete
  -- it answers none; at every other id it answers what it did before.
  pub get-put :
      IsSound cfg l
      → IsWilling cfg l
      → (draws : Draws) (id : Text) (s : Collection S) → IsMirror cfg l s
      → IsReady cfg l s
      → ((value v : Json)
          → validated schema_input cfg.schema value ≡ ok v
          → Shows id (some v) s (Writes.put cfg draws id value s).0)
        × Shows id none s (Writes.delete cfg draws id s).0
  get-put p w draws id s m ready =
      let settled = writes_settle cfg l w p draws id s m ready in
      (
        λ value v e.
            let t = (Writes.put cfg draws id value s).0 in
            let (done, mirror, (u, made, found)) = settled.0 value v e in
            let same : u ≡ v = ground (arith, made, e) in
            (
              ap (λ z. z.1) (get-IsMirror id t mirror)
                  ∙ ap (λ o. ok (value_of o)) (found id ∙ if_pos (dec_text id id) refl _ _)
                  ∙ ap (λ z. ok (some z)) same,
              λ j k.
                  ap (λ z. z.1) (get-IsMirror j t mirror)
                  ∙ ap (λ o. ok (value_of o)) (found j ∙ if_neg (dec_text j id) k _ _)
                  ∙ sym (ap (λ z. z.1) (get-IsMirror j s m)),
            ),
        (
          ap (λ z. z.1) (get-IsMirror id (Writes.delete cfg draws id s).0 settled.2)
              ∙ ap (λ o. ok (value_of o)) (settled.3 id ∙ if_pos (dec_text id id) refl _ _),
          λ j k.
              ap (λ z. z.1) (get-IsMirror j (Writes.delete cfg draws id s).0 settled.2)
              ∙ ap (λ o. ok (value_of o)) (settled.3 j ∙ if_neg (dec_text j id) k _ _)
              ∙ sym (ap (λ z. z.1) (get-IsMirror j s m)),
        ),
      )
