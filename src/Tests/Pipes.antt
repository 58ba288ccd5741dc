-- ===== src/Tests/Pipes.antt =====
-- pipe.c at a small pipe.
use hyu_3rd_1se.Prelude.{◌≡◌, true, false, some, [], ◌∷◌, ok, ◌>>=◌, arith}
use hyu_3rd_1se.Pipe.{Pipe, PipeState, pipealloc, pipewrite, piperead, put_byte}
use hyu_3rd_1se.Pipe.Stream.{
  Stream, pipealloc-Stream, put_byte-Stream, pipewrite-Stream, piperead-pipewrite,
}
use hyu_3rd_1se.Scenario.{kernel}

abbrev pub page : Pipe
page = record {
  data_at = λ _. 0;
  nread = 0;
  nwrite = 0;
  readopen = false;
  writeopen = false;
  nread_chan = 700;
  nwrite_chan = 704;
}

-- A new pipe.
abbrev fresh : PipeState
fresh = record { kernel = kernel; pipe = pipealloc page }

-- A pipe with the byte 65 in it.
abbrev used : PipeState
used = record { kernel = kernel; pipe = put_byte (pipealloc page) 65 }

used-Stream : Stream used.pipe (65 ∷ [])
used-Stream = put_byte-Stream [] 65 (pipealloc-Stream page) (omega arith)

pipewrite-Stream_example :
    (s' : PipeState) × (pipewrite (λ s. s) 1 used (66 ∷ 67 ∷ []) ≡ ok (s', true))
    × Stream s'.pipe (65 ∷ 66 ∷ 67 ∷ [])
pipewrite-Stream_example =
    pipewrite-Stream (λ s. s) 0 used (65 ∷ []) (66 ∷ 67 ∷ []) used-Stream (omega arith)

piperead-pipewrite_example :
    (s' : PipeState) × ((pipewrite (λ s. s) 1 fresh (66 ∷ 67 ∷ []) >>= λ r.
    piperead (λ s. s) 1 r.0 2)
      ≡ ok (s', some (66 ∷ 67 ∷ [])))
    × Stream s'.pipe []
piperead-pipewrite_example =
    piperead-pipewrite (λ s. s) 0 fresh (66 ∷ 67 ∷ []) (pipealloc-Stream page) (omega arith)
      (omega arith)

-- The reader of the pipe is gone.
abbrev broken : PipeState
broken = record fresh { pipe = record fresh.pipe { readopen = false } }

fresh-Stream : Stream fresh.pipe []
fresh-Stream = pipealloc-Stream page

broken-Stream : Stream broken.pipe []
broken-Stream = record {
  nread_in = fresh-Stream.nread_in;
  counted = fresh-Stream.counted;
  fits = fresh-Stream.fits;
  slots = fresh-Stream.slots;
}
