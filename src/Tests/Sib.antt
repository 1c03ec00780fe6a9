-- ===== src/Tests/Sib.antt =====
-- Runs of the SIB network models (src/warptap/icl_model.py, sib_layout.py, sib_model.py).
use warptap.Base.{
  ℕ, none, List, [], ◌∷◌, ◌++◌, reverse, some, ok, ◌>>=◌, length, ◌≡◌, refl, arith, inl,
}
use warptap.IclModel.{read, write}
use warptap.SibLayout.{OpenSet, names, normalize_open, layout_bit_length, compose_bits}
use warptap.SibLayout.Length.{length-compose_bits}
use warptap.SibModel.{capture, update}
use warptap.SibModel.State.{new_leaf, make_chain, new_register}
use warptap.SibModel.Load.{size, load}
use warptap.SibModel.Contents.{contents}
use warptap.SibModel.Feed.{feed, feed_full}
use warptap.SibOvershift.Effect.{probe-Synced}
use warptap.SibRound.{moved}
use warptap.SibRound.Compose.{round-compose_bits}
use warptap.SibRound.Sync.{Synced, round-Synced, new_register-Synced}
use warptap.TapIr.{bits_to_int, bits_from_int}
use warptap.Tests.Network.{instrument, network, state, now, after, state-Sized, fresh}

length-compose_bits_example :
    (compose_bits network now after (some "a") 3 >>= λ bits. ok (length bits))
    ≡ layout_bit_length network now
length-compose_bits_example = length-compose_bits network now after (some "a") 3

feed_full_example :
    feed state (1 ∷ 0 ∷ 1 ∷ 0 ∷ 1 ∷ 0 ∷ 0 ∷ [])
    ≡ (load state (reverse (1 ∷ 0 ∷ 1 ∷ 0 ∷ 1 ∷ 0 ∷ 0 ∷ [])), reverse (contents state))
unfolding bits_to_int size
feed_full_example =
    feed_full state (1 ∷ 0 ∷ 1 ∷ 0 ∷ 1 ∷ 0 ∷ 0 ∷ []) state-Sized
      (λ e. tt, (λ e. (λ e'. tt, tt), (refl, tt))) (omega arith) refl

-- Opens "c" and takes the mux to its second arm, while "a" stays open and gets the value 3.
round-compose_bits_example :
    (bits : List ℕ) × (compose_bits network now after (some "a") 3 ≡ ok bits)
    × (layout_bit_length network now ≡ ok (length bits))
    × (update (feed (capture state) (reverse bits)).0
        ≡ moved (normalize_open after) (some "a") 3 state)
    × ((feed (capture state) (reverse bits)).1 ≡ reverse (contents (capture state)))
unfolding bits_to_int size normalize_open
round-compose_bits_example =
    round-compose_bits network state now after (some "a") 3
      (
        refl,
        (refl, (instrument "ia" write, refl, refl)),
        (
          refl,
          (refl, (refl, (refl, (instrument "ic" read, refl, refl)), tt)),
          (
            refl,
            refl,
            (
              refl,
              (refl, (instrument "i1" read, refl, refl)),
              (refl, (refl, (instrument "i2" read, refl, refl)), tt),
            ),
            tt,
          ),
        ),
      )
      state-Sized (λ e. tt, (λ e. (λ e'. tt, tt), (refl, tt))) (omega arith)
      (refl, (λ e. tt), (refl, (λ e. (refl, (λ e'. tt), tt)), (inl refl, tt)))

-- The state is in step with the set of its open SIBs.
state-Synced : Synced network now state
unfolding bits_to_int normalize_open
state-Synced = record {
  fits = (
    refl,
    (refl, (instrument "ia" write, refl, refl)),
    (
      refl,
      (refl, (refl, (refl, (instrument "ic" read, refl, refl)), tt)),
      (
        refl,
        refl,
        (
          refl,
          (refl, (instrument "i1" read, refl, refl)),
          (refl, (refl, (instrument "i2" read, refl, refl)), tt),
        ),
        tt,
      ),
    ),
  );
  sized = state-Sized;
  tracks = (refl, (λ e. tt), (refl, (λ e. (refl, (λ e'. tt), tt)), (inl refl, tt)));
  quiet = ((λ e. tt), (λ e. tt), ((λ e. ((λ e'. tt), (λ e'. tt), tt)), (λ e. cc), tt));
  no_relay = ((λ e. tt), ((λ e. ((λ e'. tt), tt)), (refl, tt)));
}

abbrev deeper : OpenSet
deeper = names ("a" ∷ "b" ∷ "c" ∷ [])

round-Synced_example :
    (bits : List ℕ) × (compose_bits network now deeper (some "c") 2 ≡ ok bits)
    × Synced network deeper (update (feed (capture state) (reverse bits)).0)
unfolding bits_to_int size normalize_open bits_from_int
round-Synced_example =
    round-Synced network state now deeper (some "c") 2 state-Synced (omega arith) (
      (λ o e. tt),
      (λ e. tt),
      (λ e. tt),
      (
        (λ o e. ((λ o' e'. tt), (λ e'. tt), (λ e'. tt), tt)),
        (λ e. cc),
        (λ e. cc),
        (inl refl, refl, tt),
      ),
    )

new_register-Synced_example : Synced network (names []) fresh
unfolding new_register make_chain new_leaf
new_register-Synced_example = new_register-Synced network fresh (tt, ((tt, tt), (refl, tt))) refl

probe-Synced_example :
    (tail : List ℕ) × (compose_bits network now now none 0 ≡ ok tail)
    × (update (feed (capture state) ((0 ∷ 0 ∷ 1 ∷ []) ++ reverse tail)).0
        ≡ moved (normalize_open now) none 0 state)
    × Synced network now (update (feed (capture state) ((0 ∷ 0 ∷ 1 ∷ []) ++ reverse tail)).0)
    × ((feed (capture state) ((0 ∷ 0 ∷ 1 ∷ []) ++ reverse tail)).1
        ≡ reverse (contents (capture state)) ++ (0 ∷ 0 ∷ 1 ∷ []))
unfolding bits_to_int size normalize_open bits_from_int
probe-Synced_example = probe-Synced network state now (0 ∷ 0 ∷ 1 ∷ []) state-Synced (omega arith) (
  (λ o e. tt),
  (λ e. tt),
  (λ e. tt),
  (
    (λ o e. ((λ o' e'. tt), (λ e'. tt), (λ e'. tt), tt)),
    (λ e. cc),
    (λ e. cc),
    (inl refl, refl, tt),
  ),
)
