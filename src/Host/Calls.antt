-- ===== src/Host/Calls.antt =====
-- The host puts a string into a buffer of the guest.
use crabcraft.Prelude.{
  ℕ, zero, suc, ◌+◌, ◌^◌, ◌≤◌, ◌<◌, ◌≡◌, refl, ◌∙◌, arith, inl, inr, Bytes, IsByte, All, length,
  done,
}
use crabcraft.Cpp.Encode.{zeros}
use crabcraft.Cpp.Decoder.FlagBits.{length-zeros}
use crabcraft.Cpp.Runtime.{Runtime, minimum_one, emplace, crab_alloc}
use crabcraft.Cpp.Linear.{Memory, Instance, load_string, store_at, alloc_at}
use crabcraft.Cpp.Linear.Memory.{
  Apart, load-store, load-store-Apart, store_string_lem, length-store_at, All-store_at,
}
use crabcraft.Cpp.Linear.Refines.{Shows, sizes-emplace}
use crabcraft.Host.{put_string}

All-zeros : (n : ℕ) → All IsByte (zeros n)
All-zeros zero = tt
All-zeros (suc n) = (omega arith, All-zeros n)

pub minimum_one_small : (n : ℕ) → n < 2 ^ 31 → n ≤ minimum_one n
minimum_one_small n h = ground arith

narrow : (q k p n s : ℕ) → s ≤ n → Apart q k p n → Apart q k p s
narrow q k p n s h (inl before) = inl before
narrow q k p n s h (inr behind) = inr (omega arith)

-- What an instance is after the string `s` was put at `p`.
pub record Put (inst : Instance) (rt : Runtime) (p : ℕ) (s : Bytes) (inst' : Instance)
    : Type 0 where
  pub shows : Shows inst' (crab_alloc rt p (length s))
  pub there : load_string inst'.memory p (length s) ≡ done s
  pub elsewhere :
      (q k : ℕ)
      → Apart q k p (minimum_one (length s))
      → load_string inst'.memory q k ≡ load_string inst.memory q k
  pub same_size : length inst'.memory ≡ length inst.memory
  pub bytes : All IsByte inst'.memory
  pub same_ptr : inst'.reply_ptr ≡ inst.reply_ptr
  pub same_len : inst'.reply_len ≡ inst.reply_len

module _ (inst : Instance) (p : ℕ) (s : Bytes) where
  cleared : Memory
  cleared = store_at p (zeros (minimum_one (length s))) inst.memory

  put : Instance
  unfolding cleared
  put = record inst {
    memory = store_at p s cleared;
    pins = emplace inst.pins p (minimum_one (length s));
  }

  module _ (small : length s < 2 ^ 31)
      (room : p + minimum_one (length s) ≤ length inst.memory) where
    room_zeros : p + length (zeros (minimum_one (length s))) ≤ length inst.memory
    room_zeros = rw (length-zeros (minimum_one (length s))) room

    length-cleared : length cleared ≡ length inst.memory
    unfolding cleared
    length-cleared = length-store_at p (zeros (minimum_one (length s))) inst.memory room_zeros

    room_string : p + length s ≤ length cleared
    room_string = omega (arith, length-cleared, minimum_one_small (length s) small, room)

    put_string_run : put_string inst p s ≡ done (p, put)
    unfolding put_string alloc_at put
    put_string_run =
        rw (store_string_lem p (zeros (minimum_one (length s))) inst.memory room_zeros)
          (unfold cleared in rw (store_string_lem p s cleared room_string))

    elsewhere :
        (q k : ℕ)
        → Apart q k p (minimum_one (length s))
        → load_string put.memory q k ≡ load_string inst.memory q k
    unfolding put
    elsewhere q k apart =
        load-store-Apart q k p s cleared room_string (
          narrow q k p (minimum_one (length s)) (length s) (minimum_one_small (length s) small)
            apart)
        ∙ (unfold cleared in
            load-store-Apart q k p (zeros (minimum_one (length s))) inst.memory room_zeros
              (rw (length-zeros (minimum_one (length s))) apart))

    put-Shows :
        (rt : Runtime)
        → Shows inst rt
        → Apart inst.reply_ptr inst.reply_len p (minimum_one (length s))
        → Shows put (crab_alloc rt p (length s))
    unfolding put crab_alloc
    put-Shows rt shows apart = record {
      same_handlers = shows.same_handlers;
      same_pins = rw (
        sizes-emplace rt.allocs p (zeros (minimum_one (length s))),
        length-zeros (minimum_one (length s)),
        shows.same_pins,
      );
      reply_there = elsewhere inst.reply_ptr inst.reply_len apart ∙ shows.reply_there;
    }

    pub put_string_lem :
        (rt : Runtime)
        → Shows inst rt
        → All IsByte inst.memory
        → All IsByte s
        → Apart inst.reply_ptr inst.reply_len p (minimum_one (length s))
        → (inst' : Instance) × (put_string inst p s ≡ done (p, inst')) × Put inst rt p s inst'
    put_string_lem rt shows bytes s_bytes apart = (
      put,
      put_string_run,
      record {
        shows = put-Shows rt shows apart;
        there = unfold put in load-store p s cleared room_string;
        elsewhere = elsewhere;
        same_size = unfold put in (length-store_at p s cleared room_string ∙ length-cleared);
        bytes =
            unfold put in
            All-store_at p s cleared s_bytes (
              unfold cleared in
              All-store_at p (zeros (minimum_one (length s))) inst.memory
                (All-zeros (minimum_one (length s))) bytes);
        same_ptr = unfold put in refl;
        same_len = unfold put in refl;
      },
    )
