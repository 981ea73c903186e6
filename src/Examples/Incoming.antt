-- ===== src/Examples/Incoming.antt =====
-- Input at concrete inputs: headers, fragments, and messages from a peer that lies.
use mate_corba.Prelude.{
  ℕ, ◌+◌, ◌-◌, ◌%◌, ◌≡◌, refl, arith, List, [], ◌∷◌, ◌++◌, false, some, length, replicate, take,
  big, little,
}
use mathlib.Core.Option.{some-injective}
use mate_corba.Giop.Types.{
  giop_1_2, giop_1_1, giop_locate_request, giop_magic, giop_request, giop_reply, giop_fragment,
}
use mate_corba.Giop.RecvBuffer.Reader.{ok, RecvBuffer}
use mate_corba.Giop.RecvBuffer.Demarshal.{demarshal, no_body}
use mate_corba.Prelude.{u32_of}
use mate_corba.Giop.Align.{align_value}
use mate_corba.Giop.RecvBuffer.Reader.{aligned_u32, align_cur, need, get_u32}
use mate_corba.Giop.RecvBuffer.Safety.{Ensures}
use mate_corba.Giop.RecvBuffer.Fields.{demarshal-IsBody}
use mate_corba.Giop.RecvBuffer.Fields.Steps.{IsBody}
use mate_corba.Giop.RecvBuffer.Encaps.{IsEncaps, use_encaps_buf, use_encaps_buf-IsEncaps}
use mate_corba.Giop.Input.Header.{msg_reading_body}
use mate_corba.Giop.Input.Checks.{IsChecked, msg_reading_body-IsChecked}
use mate_corba.Giop.Input.Fragments.{Message, Frags, concat_frags}
use mate_corba.Giop.Input.Concat.{IsTracked, payloads, concat_frags_lem}

-- A request whose key claims four thousand million octets.
abbrev liar : RecvBuffer
liar = record {
  msg_header = record {
    magic = giop_magic;
    version_0 = 1;
    version_1 = 2;
    flags = 1;
    message_type = giop_request;
    message_size = 16;
  };
  giop_version = giop_1_2;
  base = 4096;
  memory =
      replicate 12 0
      ++ (1 ∷ 0 ∷ 0 ∷ 0 ∷ 3 ∷ 0 ∷ 0 ∷ 0 ∷ 0 ∷ 0 ∷ 0 ∷ 0 ∷ 255 ∷ 255 ∷ 255 ∷ 255 ∷ []);
  cur = 4108;
  end = 4124;
}

-- A locate request of GIOP 1.1 for a key of two octets.
abbrev honest : RecvBuffer
honest = record {
  msg_header = record {
    magic = giop_magic;
    version_0 = 1;
    version_1 = 1;
    flags = 1;
    message_type = giop_locate_request;
    message_size = 10;
  };
  giop_version = giop_1_1;
  base = 4096;
  memory = replicate 12 0 ++ (1 ∷ 0 ∷ 0 ∷ 0 ∷ 2 ∷ 0 ∷ 0 ∷ 0 ∷ 104 ∷ 105 ∷ []);
  cur = 4108;
  end = 4118;
}

demarshal-IsBody_example : Ensures (λ x b. IsBody little honest x) (demarshal little honest)
demarshal-IsBody_example = demarshal-IsBody little honest (omega arith) (omega arith)

at_4096 : (addr : ℕ) → some 4096 ≡ some addr → addr % 4 ≡ 0
at_4096 addr e = omega (arith, some-injective 4096 addr e)

msg_reading_body-IsChecked_example :
    IsChecked 262144 false big liar.msg_header
      (msg_reading_body big 262144 (some 4096) 0 false liar)
msg_reading_body-IsChecked_example =
    msg_reading_body-IsChecked big 262144 0 false liar (some 4096) at_4096

-- A reply of eight bytes, of which the first eight have come, and two fragments of four and two.
abbrev buffer_of : ℕ → List ℕ → ℕ → RecvBuffer
buffer_of type bytes size = record {
  msg_header = record {
    magic = giop_magic;
    version_0 = 1;
    version_1 = 2;
    flags = 3;
    message_type = type;
    message_size = size;
  };
  giop_version = giop_1_2;
  base = 4096;
  memory = replicate 12 0 ++ bytes;
  cur = 4108;
  end = 4108 + length bytes;
}

abbrev message_of : RecvBuffer → Message
message_of b = record { buffer = b; body = no_body }

abbrev frags : Frags
frags = record {
  head = message_of (buffer_of giop_reply (1 ∷ 2 ∷ 3 ∷ 4 ∷ 5 ∷ 6 ∷ 7 ∷ 8 ∷ []) 14);
  rest =
      message_of (buffer_of giop_fragment (9 ∷ 10 ∷ 11 ∷ 12 ∷ []) 4)
      ∷ message_of (buffer_of giop_fragment (13 ∷ 14 ∷ []) 2)
      ∷ [];
}

frags-IsTracked : IsTracked frags
frags-IsTracked =
    unfold payloads in
    record { low = omega arith; within = omega arith; held = refl; tracked = refl }

concat_frags_lem_example :
    (whole : Message) × (concat_frags (some 8192) 0 frags ≡ ok whole)
    × (take (whole.buffer.end - whole.buffer.base) whole.buffer.memory
        ≡ frags.head.buffer.memory ++ payloads frags.rest)
    × (whole.buffer.end
        ≡ whole.buffer.base + length (frags.head.buffer.memory ++ payloads frags.rest))
    × (whole.buffer.cur - whole.buffer.base ≡ frags.head.buffer.cur - frags.head.buffer.base)
concat_frags_lem_example = concat_frags_lem 8192 0 frags refl frags-IsTracked

-- An encapsulation of four octets.
abbrev enclosing : RecvBuffer
enclosing = record liar {
  memory = replicate 12 0 ++ (4 ∷ 0 ∷ 0 ∷ 0 ∷ 1 ∷ 0 ∷ 0 ∷ 0 ∷ []);
  end = 4116;
}

use_encaps_buf-IsEncaps_example :
    IsEncaps 4116 (record enclosing { cur = 4112 }) 4 (use_encaps_buf little enclosing)
use_encaps_buf-IsEncaps_example =
    use_encaps_buf-IsEncaps little enclosing 4 (record enclosing { cur = 4112 }) (omega arith)
      (omega arith) (unfold aligned_u32 align_cur need get_u32 align_value u32_of in refl)
      (omega arith)
