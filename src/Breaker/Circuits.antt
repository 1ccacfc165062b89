-- ===== src/Breaker/Circuits.antt =====
-- middleware/circuit_breaker.py: the records of different keys.
use apcore_python.Prelude.{◌≡◌, ◌≢◌, ◌↔◌, refl, true, [], ◌∷◌, arith, text_eq_iff}
use apcore_python.Breaker.{
  CircuitRecord, Key, same_key, Circuits, get_record, put_record, on_circuit,
}

same_key_iff : (k l : Key) → (same_key k l ≡ true) ↔ (k ≡ l)
same_key_iff (m, c) (m', c') = ground (arith, text_eq_iff m m', text_eq_iff c c')

get_record-put_record :
    (key : Key) (new : CircuitRecord) (circuits : Circuits)
    → get_record key (put_record key new circuits) ≡ new
unfolding get_record put_record
get_record-put_record key new [] = ground (arith, same_key_iff key key)
get_record-put_record key new ((k, circuit) ∷ circuits) =
    ground (arith, same_key_iff k key, get_record-put_record key new circuits)

get_record-put_other :
    (key other : Key) (new : CircuitRecord) (circuits : Circuits)
    → other ≢ key
    → get_record other (put_record key new circuits) ≡ get_record other circuits
unfolding get_record put_record
get_record-put_other key other new [] d = ground (arith, same_key_iff key other)
get_record-put_other key other new ((k, circuit) ∷ circuits) d =
    ground (
      arith,
      same_key_iff k key,
      same_key_iff k other,
      get_record-put_other key other new circuits d,
    )

-- A hook takes its step on the record of its own key, a new one where there is none, and leaves the
-- record of every other key as it was.
pub on_circuit-independent {ℓ} :
    {A : Type ℓ} (key other : Key) (step : CircuitRecord → CircuitRecord × A) (circuits : Circuits)
    → (get_record key (on_circuit key step circuits).0 ≡ (step (get_record key circuits)).0)
      × ((on_circuit key step circuits).1 ≡ (step (get_record key circuits)).1)
      × (other ≢ key
          → get_record other (on_circuit key step circuits).0 ≡ get_record other circuits)
unfolding on_circuit
on_circuit-independent key other step circuits =
    (get_record-put_record key _ circuits, refl, get_record-put_other key other _ circuits)
