-- ===== src/Buffer/Wellformed.antt =====
-- The invariant of a buffer, and how its parts change it.
use libjeffpc.Base.{
  ℕ, ◌+◌, ◌^◌, ◌≤◌, ◌<◌, ◌≡◌, ◌≢◌, refl, sym, ap, ◌∙◌, ◌⊎◌, inl, inr, true, false, none, some,
  Option-cases, List, arith, leb, length, take, Result, ok, err, enomem, enotsup, Bool-cases,
}
use libjeffpc.Buffer.{
  Ops, heap_buffer, sink_buffer, static_buffer_ro, static_buffer_rw, Buffer, size_max, resize,
  clear, copyin,
}
use libjeffpc.Buffer.Memory.{Allocator}
use libjeffpc.Buffer.Lemmas.{
  splice, zeros, length-splice, length-zeros, copy_in-splice, clear_bytes-splice,
}

-- The bytes that a buffer holds.
abbrev pub contents : Buffer → List ℕ
contents b = take b.size b.block

-- A sink has no block, and room for all that can be counted. Any other kind has a block with room for
-- `allocsize` bytes.
pub record IsWellformed (b : Buffer) : Type 0 where
  pub offset : b.off ≤ b.size
  pub filled : b.size ≤ b.allocsize
  pub counted : b.allocsize < 2 ^ 64
  pub backed :
      ((b.ops ≡ sink_buffer) × (b.allocsize ≡ size_max))
      ⊎ ((b.ops ≢ sink_buffer) × (b.allocsize ≤ length b.block))

-- Kinds that can be written.
abbrev pub IsWritable : Buffer → Type 0
IsWritable b = b.ops ≢ static_buffer_ro

-- More room, and nothing else.
pub record Grown (b : Buffer) (n : ℕ) (b' : Buffer) : Type 0 where
  pub wellformed : IsWellformed b'
  pub room : n ≤ b'.allocsize
  pub same_ops : b'.ops ≡ b.ops
  pub same_size : b'.size ≡ b.size
  pub same_off : b'.off ≡ b.off
  pub same_contents : contents b' ≡ contents b

abbrev pub Resized : Buffer → ℕ → Result Buffer → Type 0
Resized b n r =
    ((b.allocsize < n) × (b.ops ≡ heap_buffer) × (r ≡ err enomem))
    ⊎ ((b.allocsize < n)
        × ((b.ops ≡ static_buffer_ro) ⊎ (b.ops ≡ static_buffer_rw))
        × (r ≡ err enotsup))
    ⊎ ((b' : Buffer) × (r ≡ ok b') × Grown b n b')

pub ops_cases :
    (o : Ops)
    → (o ≡ heap_buffer) ⊎ (o ≡ sink_buffer) ⊎ ((o ≡ static_buffer_ro) ⊎ (o ≡ static_buffer_rw))
ops_cases heap_buffer = inl refl
ops_cases sink_buffer = inr (inl refl)
ops_cases static_buffer_ro = inr (inr (inl refl))
ops_cases static_buffer_rw = inr (inr (inr refl))

module _ (alloc : Allocator) (b : Buffer) (n : ℕ) where
  resize_room : leb n b.allocsize ≡ true → resize alloc b n ≡ ok b
  unfolding resize
  resize_room e = ground arith

  resize_heap :
      (leb n b.allocsize ≡ false)
      → b.ops ≡ heap_buffer
      → (block : List ℕ) → alloc.realloc b.block n ≡ some block
      → resize alloc b n ≡ ok (record b { block = block; allocsize = n })
  unfolding resize
  resize_heap e o block got = ground arith

  resize_nomem :
      (leb n b.allocsize ≡ false)
      → b.ops ≡ heap_buffer
      → alloc.realloc b.block n ≡ none
      → resize alloc b n ≡ err enomem
  unfolding resize
  resize_nomem e o got = ground arith

  resize_static :
      (leb n b.allocsize ≡ false)
      → (b.ops ≡ static_buffer_ro) ⊎ (b.ops ≡ static_buffer_rw)
      → resize alloc b n ≡ err enotsup
  unfolding resize
  resize_static e o = ground arith

  realloc_Grown :
      IsWellformed b
      → n < 2 ^ 64
      → leb n b.allocsize ≡ false
      → b.ops ≡ heap_buffer
      → (block : List ℕ) → alloc.realloc b.block n ≡ some block
      → Grown b n (record b { block = block; allocsize = n })
  realloc_Grown w h e o block got =
      let size : length block ≡ n = alloc.realloc_size b.block block n got in
      let old : b.size ≤ length b.block = ground (arith, w.filled, w.backed) in
      let new : b.size ≤ n = ground (arith, w.filled) in
      record {
        wellformed = record {
          offset = w.offset;
          filled = new;
          counted = h;
          backed = inr (ground arith, omega arith);
        };
        room = omega arith;
        same_ops = refl;
        same_size = refl;
        same_off = refl;
        same_contents = alloc.realloc_keeps b.block block n b.size got old new;
      }

  pub resize-Resized : IsWellformed b → n < 2 ^ 64 → Resized b n (resize alloc b n)
  resize-Resized w h = elim (Bool-cases (leb n b.allocsize)) [
    | inl room ↦ inr (
        inr (
          b,
          resize_room room,
          record {
            wellformed = w;
            room = ground arith;
            same_ops = refl;
            same_size = refl;
            same_off = refl;
            same_contents = refl;
          },
        ))
    | inr full ↦ elim (ops_cases b.ops) [
      | inl heap ↦ elim (Option-cases (alloc.realloc b.block n)) [
        | inl got ↦ inl (ground arith, heap, resize_nomem full heap got)
        | inr (block, got) ↦
            inr (inr (_, resize_heap full heap block got, realloc_Grown w h full heap block got))
      ]
      | inr (inl sink) ↦ absurd (ground (arith, w.backed))
      | inr (inr static) ↦ inr (inl (ground arith, static, resize_static full static))
    ]
  ]

-- Bytes put over the block of a buffer, where it has one.
pub record Overlay (b : Buffer) (off : ℕ) (new : List ℕ) (b' : Buffer) : Type 0 where
  pub same_ops : b'.ops ≡ b.ops
  pub same_size : b'.size ≡ b.size
  pub same_off : b'.off ≡ b.off
  pub same_allocsize : b'.allocsize ≡ b.allocsize
  pub put :
      (b.ops ≡ sink_buffer)
      ⊎ ((b.ops ≢ sink_buffer)
          × (off + length new ≤ length b.block)
          × (b'.block ≡ splice b.block off new))

abbrev laid : Buffer → List ℕ → Buffer
laid b block = record b { block = block }

module _ (b : Buffer) (off : ℕ) (w : IsWellformed b) (writable : IsWritable b) where
  sink_Overlay : (new : List ℕ) → b.ops ≡ sink_buffer → Overlay b off new b
  sink_Overlay new e = record {
    same_ops = refl;
    same_size = refl;
    same_off = refl;
    same_allocsize = refl;
    put = inl e;
  }

  block_Overlay :
      (new : List ℕ)
      → b.ops ≢ sink_buffer
      → off + length new ≤ length b.block
      → Overlay b off new (laid b (splice b.block off new))
  block_Overlay new e fit = record {
    same_ops = refl;
    same_size = refl;
    same_off = refl;
    same_allocsize = refl;
    put = inr (e, fit, refl);
  }

  pub copyin-Overlay :
      (new : List ℕ)
      → off + length new ≤ b.allocsize
      → (b' : Buffer) × (copyin b off new (length new) ≡ ok b') × Overlay b off new b'
  unfolding copyin
  copyin-Overlay new fit = elim w.backed [
    | inl (e, all) ↦ (b, ground arith, sink_Overlay new e)
    | inr (e, room) ↦ (
      laid b (splice b.block off new),
      ground (arith, copy_in-splice b.block off new (omega arith)),
      block_Overlay new e (omega arith),
    )
  ]

  pub clear-Overlay :
      (n : ℕ)
      → off + n ≤ b.allocsize
      → (b' : Buffer) × (clear b off n ≡ ok b') × Overlay b off (zeros n) b'
  unfolding clear
  clear-Overlay n fit = elim w.backed [
    | inl (e, all) ↦ (b, ground arith, sink_Overlay (zeros n) e)
    | inr (e, room) ↦ (
      laid b (splice b.block off (zeros n)),
      ground (arith, clear_bytes-splice b.block off n (omega arith)),
      block_Overlay (zeros n) e (omega (arith, length-zeros n)),
    )
  ]

-- An overlaid buffer with its size and its offset set is well formed if they fit.
pub Overlay-IsWellformed :
    (b b' : Buffer) (off size' off' : ℕ) (new : List ℕ)
    → IsWellformed b
    → Overlay b off new b'
    → off' ≤ size'
    → size' ≤ b.allocsize
    → IsWellformed (record b' { size = size'; off = off' })
Overlay-IsWellformed b b' off size' off' new w o h k = record {
  offset = h;
  filled = omega (arith, o.same_allocsize);
  counted = omega (arith, o.same_allocsize, w.counted);
  backed = backing w.backed o.put;
}
  where
    backing :
        ((b.ops ≡ sink_buffer) × (b.allocsize ≡ size_max))
          ⊎ ((b.ops ≢ sink_buffer) × (b.allocsize ≤ length b.block))
        → (b.ops ≡ sink_buffer)
          ⊎ ((b.ops ≢ sink_buffer)
              × (off + length new ≤ length b.block)
              × (b'.block ≡ splice b.block off new))
        → ((b'.ops ≡ sink_buffer) × (b'.allocsize ≡ size_max))
          ⊎ ((b'.ops ≢ sink_buffer) × (b'.allocsize ≤ length b'.block))
    backing (inl (e, all)) p = inl (o.same_ops ∙ e, o.same_allocsize ∙ all)
    backing (inr (e, room)) (inl s) = absurd (e s)
    backing (inr (e, room)) (inr (_, fit, put)) = inr (
      λ s. e (sym o.same_ops ∙ s),
      omega (arith, o.same_allocsize, ap length put, length-splice b.block off new fit),
    )
