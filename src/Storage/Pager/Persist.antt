-- ===== src/Storage/Pager/Persist.antt =====
-- `_persist_page`: the log runs ahead of the file and covers what a crash may damage.
use Prim.Native.Nat.{max}
use query_x_engine.Common.{
  ℕ, ◌+◌, ◌*◌, ◌^◌, ◌≤◌, ◌<◌, ◌≡◌, refl, ap, ◌∙◌, some, List, [], ◌∷◌, ◌++◌, arith, length, leb,
  if◌then◌else◌, All, Bool-cases, inl, inr, ok,
}
use query_x_engine.Common.Bytes.{Bytes}
use query_x_engine.Storage.File.{write_at, block, HasPages, HasPages-write_at}
use query_x_engine.Storage.Pager.{Pager, checkpoint_bytes, persist_page, checkpoint_log}
use query_x_engine.Storage.Pager.Redo.{
  Entry, IsRun, extent, last_image, IsRun-append, extent-append, last_image-append, block_written,
}
use query_x_engine.Wal.Log.Records.{Loggable, frames, frames-snoc, log_append-frame}

module _ (crc32 : Bytes → ℕ) where
  -- A file of `k` pages whose log holds the run `es`, begun when the file had `base` pages.
  pub record IsLogged (base : ℕ) (es : List Entry) (k : ℕ) (s : Pager) : Type 0 where
    pub pages : HasPages s.file k
    pub log : s.wal ≡ some (frames crc32 es)
    pub loggable : All Loggable es
    pub run : IsRun base es
    pub reach : extent base es ≡ k
    pub current : (m : ℕ) (d : Bytes) → last_image m es ≡ some d → block s.file m ≡ d

  -- the state after the append and the write, before the test on the size of the log
  abbrev written : ℕ → Bytes → List Entry → Pager → Pager
  written n d es s = record s {
    file = write_at s.file (n * 4096) d;
    wal = some (frames crc32 (es ++ ((n, d) ∷ [])));
  }

  All-append :
      (es : List Entry) (e : Entry) → All Loggable es → Loggable e → All Loggable (es ++ (e ∷ []))
  All-append [] e h l = (l, tt)
  All-append (x ∷ es) e (a, h) l = (a, All-append es e h l)

  module _ {base : ℕ} {es : List Entry} {k : ℕ} {s : Pager} (v : IsLogged base es k s) (n : ℕ)
      (d : Bytes) (next : n ≤ k) (word : n < 2 ^ 32) (image : length d ≡ 4096) where
    IsLogged-written : IsLogged base (es ++ ((n, d) ∷ [])) (max k (n + 1)) (written n d es s)
    IsLogged-written = record {
      pages = HasPages-write_at s.file n d (omega (arith, v.pages)) image k v.pages;
      log = refl;
      loggable = All-append es (n, d) v.loggable (omega arith);
      run = IsRun-append base es n d v.run (omega (arith, v.reach)) image;
      reach = extent-append base es n d ∙ ap (λ (x : ℕ). max x (n + 1)) v.reach;
      current = λ m d' h.
          rw (block_written s.file (n, d) m (omega (arith, v.pages)) image)
            (ground (arith, last_image-append m es n d, v.current m d'));
    }

    persist_call : persist_page crc32 n d s ≡ (
        if leb checkpoint_bytes (length (frames crc32 (es ++ ((n, d) ∷ []))))
        then checkpoint_log (written n d es s)
        else (ok tt, written n d es s))
    unfolding persist_page
    persist_call = rw (v.log) (
        rw (log_append-frame crc32 (frames crc32 es) n d (omega arith))
          (rw (frames-snoc crc32 es (n, d)) (ground arith)))

  abbrev pub Logged : ℕ → Pager → Type 0
  Logged k s = (base : ℕ) × ((es : List Entry) × IsLogged base es k s)

  -- a checkpoint empties the log, and the run begins anew
  pub IsLogged-checkpoint :
      {base : ℕ} {es : List Entry} {k : ℕ} (s : Pager)
      → IsLogged base es k s
      → IsLogged k [] k (checkpoint_log s).1
  unfolding checkpoint_log last_image frames
  IsLogged-checkpoint s v = record {
    pages = v.pages;
    log = rw (v.log);
    loggable = tt;
    run = tt;
    reach = refl;
    current = λ m d h. cc;
  }

  -- What a write of the page image `d` returns and leaves.
  pub record Persisted (n : ℕ) (d : Bytes) (k : ℕ) (s s' : Pager) : Type 0 where
    pub call : persist_page crc32 n d s ≡ (ok tt, s')
    pub file : s'.file ≡ write_at s.file (n * 4096) d
    pub free_list : s'.free_list ≡ s.free_list
    pub closed : s'.closed ≡ s.closed
    pub logged : Logged (max k (n + 1)) s'

  -- From a state that the log covers, `_persist_page` of a 4096-byte page, at most one page past
  -- the end, raises nothing, leaves the page in the file and the rest of the object as it was, and
  -- the log covers the state it leaves, checkpointed or not.
  pub persist_page-Persisted :
      (k : ℕ) (s : Pager) (n : ℕ) (d : Bytes)
      → Logged k s
      → n ≤ k
      → n < 2 ^ 32
      → length d ≡ 4096
      → (s' : Pager) × Persisted n d k s s'
  unfolding checkpoint_log
  persist_page-Persisted k s n d (base, (es, v)) next word image =
      elim (Bool-cases (leb checkpoint_bytes (length (frames crc32 (es ++ ((n, d) ∷ [])))))) [
        | inl full ↦ (
          _,
          record {
            call = persist_call v n d next word image ∙ rw full;
            file = refl;
            free_list = refl;
            closed = refl;
            logged = (
              _,
              (_, IsLogged-checkpoint (written n d es s) (IsLogged-written v n d next word image)),
            );
          },
        )
        | inr room ↦ (
          _,
          record {
            call = persist_call v n d next word image ∙ rw room;
            file = refl;
            free_list = refl;
            closed = refl;
            logged = (_, (_, IsLogged-written v n d next word image));
          },
        )
      ]
