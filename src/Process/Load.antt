-- ===== src/Process/Load.antt =====
-- `execute` on an executable file.
use iaaa_os.Base.{
  ℕ, ◌+◌, ◌-◌, ◌≤◌, ◌<◌, ◌≡◌, ◌∙◌, refl, sym, ap, subst, arith, ◌&&◌, if◌then◌else◌, true, false,
  ltb, leb, Buf, upd, ◌-ℤ◌, shift, word, some, min, is_zero,
}
use iaaa_os.Str.{mem_size, strlen, strncmp, strcpy}
use iaaa_os.Str.Length.{HasLength, strlen_lem, strcpy_lem}
use iaaa_os.FileSystem.{
  Fs, entry, file_type, inode_num, num_inode, inode_length, read_dentry_by_name, read_data,
}
use iaaa_os.FileSystem.Block.{Filled}
use iaaa_os.FileSystem.Data.{content, BlocksExist, read_data_first_block}
use iaaa_os.Kernel.{Kernel, get_kernel_stack_bottom, get_pcb_process}
use iaaa_os.Process.{
  parsed, parse_command, buffer_of, load_program, exe_check, page_rest, args_size, stores_behind,
  spawn, init_pcb, activate, allocate, run_file, run_command, is_full, entered, execute,
}
use iaaa_os.Files.{fd_of}
use iaaa_os.Process.Command.{IsCommand, parse_command_lem}
use iaaa_os.Process.Started.{IsStarted, spawn-IsStarted}

-- A file with the four bytes of an executable, which fits into the page of a program and whose blocks exist.
pub record IsExecutable (fs : Fs) (inode : ℕ) : Type 0 where
  pub known : inode < num_inode fs
  pub large : 28 ≤ inode_length fs inode
  pub fits : inode_length fs inode ≤ page_rest
  pub blocks : BlocksExist fs inode 0 (inode_length fs inode)
  pub magic : (i : ℕ) → i < 4 → content fs inode i ≡ exe_check i

module _ (fs : Fs) (inode : ℕ) (x : IsExecutable fs inode) where
  -- The reads of `execute` from a position in the first block.
  read_at :
      (offset length : ℕ) (buf : Buf)
      → offset < 28
      → (b : Buf) × (buffer_of (read_data fs inode offset buf length) ≡ some b)
        × Filled buf 0
            (min length (inode_length fs inode - offset))
            (λ i. content fs inode (offset + i))
            b
  unfolding buffer_of BlocksExist
  read_at offset length buf small =
      let (b, e, f) =
        read_data_first_block fs inode offset length buf x.known (omega (arith, x.large))
          (omega arith) (λ n lo hi. x.blocks n (omega arith) hi) in
      (b, rw (e, buffer_of) refl, f)

  -- The file ends in the page.
  not_behind : (buf : Buf) → stores_behind (read_data fs inode 0 buf (page_rest + 1)) ≡ false
  unfolding stores_behind BlocksExist
  not_behind buf =
      let (b, e, f) =
        read_data_first_block fs inode 0 (page_rest + 1) buf x.known (omega (arith, x.large))
          (omega arith) (λ n lo hi. x.blocks n (omega arith) hi) in
      rw e (ground (arith, x.fits))

  head_is_magic :
      (buf b : Buf)
      → Filled buf 0 (min 4 (inode_length fs inode - 0)) (λ i. content fs inode (0 + i)) b
      → is_zero (strncmp exe_check b 4) ≡ true
  unfolding strncmp ◌-ℤ◌
  head_is_magic buf b f =
      let l = x.large in
      let byte : (i : ℕ) → i < 4 → b i ≡ exe_check i = λ i h. f i ∙ byte_at i h in
      rw (byte 0 (omega arith), byte 1 (omega arith), byte 2 (omega arith), byte 3 (omega arith))
        refl
    where
      byte_at :
          (i : ℕ)
          → i < 4
          → (if leb 0 i && ltb i (0 + min 4 (inode_length fs inode - 0))
              then content fs inode (0 + (i - 0))
              else buf i)
            ≡ exe_check i
      byte_at i h =
          let index : 0 + (i - 0) ≡ i = omega arith in rw index (ground (arith, x.large, x.magic i))

entry_point :
    (fs : Fs) (inode : ℕ) (h : Buf)
    → 28 ≤ inode_length fs inode
    → Filled (λ _. 0) 0 (min 4 (inode_length fs inode - 24)) (λ i. content fs inode (24 + i)) h
    → word h 0 ≡ word (content fs inode) 24
unfolding word
entry_point fs inode h l f =
    let full : min 4 (inode_length fs inode - 24) ≡ 4 = omega arith in
    let g : Filled (λ _. 0) 0 4 (λ i. content fs inode (24 + i)) h =
      subst (λ n. Filled (λ _. 0) 0 n (λ i. content fs inode (24 + i)) h) full f in
    rw (g 0, g 1, g 2, g 3) refl

-- What the program that was started finds: its descriptors, its arguments, and its file in memory, 0x48000
-- bytes into its page.
pub record IsLoaded (fs : Fs) (inode : ℕ) (text : Buf) (m : ℕ) (k : Kernel) : Type 0 where
  pub started : IsStarted fs k
  pub args : (j : ℕ) → j ≤ m → k.args j ≡ text j
  pub image :
      (i : ℕ)
      → i < inode_length fs inode
      → k.user_mem k.curr_prog_base_phys (0x48000 + i) ≡ content fs inode i

module _ (inode : ℕ) (k : Kernel) (x : IsExecutable k.fs inode) where
  load_program_lem :
      (k' : Kernel) × (load_program inode k ≡ some (word (content k.fs inode) 24, k'))
      × (k'.args ≡ k.args)
      × ((j : ℕ) → fd_of k' j ≡ fd_of k j)
      × (k'.fs ≡ k.fs)
      × ((i : ℕ)
          → i < inode_length k.fs inode
          → k'.user_mem k'.curr_prog_base_phys (0x48000 + i) ≡ content k.fs inode i)
  unfolding load_program get_pcb_process
  load_program_lem =
      let page = k.user_mem k.curr_prog_base_phys in
      let (h, e1, f1) = read_at k.fs inode x 24 4 (λ _. 0) (omega arith) in
      let inside = not_behind k.fs inode x (shift page 0x48000) in
      let (b, e2, f2) = read_at k.fs inode x 0 0x14048000 (shift page 0x48000) (omega arith) in
      let eip = entry_point k.fs inode h x.large f1 in
      (
        record k {
          user_mem =
              upd k.user_mem k.curr_prog_base_phys
                (λ i. if ltb i 0x48000 then page i else b (i - 0x48000));
          esp0 = get_kernel_stack_bottom k;
        },
        loaded h b e1 inside e2 eip,
        refl,
        λ j. refl,
        refl,
        λ i l.
            let index : 0x48000 + i - 0x48000 ≡ i = omega arith in
            ground (arith, ap b index, f2 i, x.fits),
      )
    where
      loaded :
          (h b : Buf)
          → buffer_of (read_data k.fs inode 24 (λ _. 0) 4) ≡ some h
          → stores_behind (
              read_data k.fs inode 0
                (shift (k.user_mem k.curr_prog_base_phys) 0x48000)
                (page_rest + 1))
            ≡ false
          → buffer_of
              (read_data k.fs inode 0 (shift (k.user_mem k.curr_prog_base_phys) 0x48000) 0x14048000)
            ≡ some b
          → word h 0 ≡ word (content k.fs inode) 24
          → load_program inode k
            ≡ some (
              word (content k.fs inode) 24,
              record k {
                user_mem = upd k.user_mem k.curr_prog_base_phys (λ i.
                    if ltb i 0x48000 then k.user_mem k.curr_prog_base_phys i else b (i - 0x48000));
                esp0 = get_kernel_stack_bottom k;
              },
            )
      loaded h b e1 inside e2 eip = rw (e1, inside, e2, eip, load_program) refl

args-spawn : (ebp esp : ℕ) (k : Kernel) → (spawn ebp esp k).args ≡ k.args
unfolding spawn init_pcb activate allocate
args-spawn ebp esp k = ground arith

-- From the look-up on.
run_file_lem :
    (name d : Buf) (ebp esp m : ℕ) (k : Kernel)
    → read_dentry_by_name k.fs (some name) (λ _. 0) ≡ some (entry d)
    → file_type d ≡ 2
    → IsExecutable k.fs (inode_num d)
    → (k' : Kernel) × (run_file name ebp esp k
        ≡ some (entered (word (content k.fs (inode_num d)) 24), k'))
      × IsLoaded k.fs (inode_num d) k.args m k'
unfolding run_file
run_file_lem name d ebp esp m k look kind x =
    let inode = inode_num d in
    let s = spawn-IsStarted ebp esp k in
    let (head, e1, f) = read_at k.fs inode x 0 4 name (omega arith) in
    let magic = head_is_magic k.fs inode x name head f in
    let x' = subst (λ (fs : Fs). IsExecutable fs inode) (sym s.disk) x in
    let (k', e2, args, fds, disk, image) = load_program_lem inode (spawn ebp esp k) x' in
    (
      k',
      steps head k' e1 magic (e2 ∙ ap (λ (fs : Fs). some (word (content fs inode) 24, k')) s.disk),
      record {
        started = record {
          input = ap (λ c. c.file_op) (fds 0) ∙ s.input;
          open_input = λ z. s.open_input (sym (ap (λ c. c.flags) (fds 0)) ∙ z);
          output = ap (λ c. c.file_op) (fds 1) ∙ s.output;
          open_output = λ z. s.open_output (sym (ap (λ c. c.flags) (fds 1)) ∙ z);
          free = λ j lo hi. ap (λ c. c.flags) (fds j) ∙ s.free j lo hi;
          disk = disk ∙ s.disk;
        };
        args = λ j l. ap (λ (b : Buf). b j) (args ∙ args-spawn ebp esp k);
        image = λ i l.
            image i (subst (λ (fs : Fs). i < inode_length fs inode) (sym s.disk) l)
            ∙ ap (λ (fs : Fs). content fs inode i) s.disk;
      },
    )
  where
    steps :
        (head : Buf) (k' : Kernel)
        → buffer_of (read_data k.fs (inode_num d) 0 name 4) ≡ some head
        → is_zero (strncmp exe_check head 4) ≡ true
        → load_program (inode_num d) (spawn ebp esp k)
          ≡ some (word (content k.fs (inode_num d)) 24, k')
        → run_file name ebp esp k ≡ some (entered (word (content k.fs (inode_num d)) 24), k')
    steps head k' e1 magic e2 = rw (look, kind, e1, magic, e2, run_file) refl

below_mem : (m : ℕ) → m < args_size → m < mem_size
unfolding mem_size
below_mem m h = omega arith

-- `execute` runs a file. If there is room for a process, the command is spaces, a word and arguments, the
-- directory has an entry of a regular file under the word, the arguments have less than 128 characters, and
-- the file is an executable that ends in the page of the program and whose blocks exist, then `execute`
-- enters the program at the address that the file gives; the program finds the file 0x48000 bytes into its
-- page, the rest of the command as its arguments, the terminal as its descriptors 0 and 1, and no other
-- descriptor in use.
pub execute_lem :
    (command behind : Buf) (a w s m : ℕ) (d : Buf) (ebp esp : ℕ) (k : Kernel)
    → is_full k ≡ false
    → IsCommand command a w s
    → HasLength (shift command (a + w + s)) m
    → m < args_size
    → ((name : Buf)
        → ((j : ℕ)
            → name j ≡ (if ltb j w then command (a + j) else if ltb j 32 then 0 else behind j))
        → read_dentry_by_name k.fs (some name) (λ _. 0) ≡ some (entry d))
    → file_type d ≡ 2
    → IsExecutable k.fs (inode_num d)
    → (k' : Kernel) × (execute (some command) behind ebp esp k
        ≡ some (entered (word (content k.fs (inode_num d)) 24), k'))
      × IsLoaded k.fs (inode_num d) (shift command (a + w + s)) m k'
unfolding execute run_command
execute_lem command behind a w s m d ebp esp k room c rest small look kind x =
    let (name, parse, f) = parse_command_lem command behind a w s c in
    let (args, copy, g) =
      strcpy_lem k.args (shift command (a + w + s)) m rest (below_mem m small) in
    let size = strlen_lem (shift command (a + w + s)) m rest (below_mem m small) in
    let fits : leb args_size m ≡ false = ground arith in
    let (k', e, l) =
      run_file_lem name d ebp esp m (record k { args = args }) (look name f) kind x in
    (
      k',
      steps name args k' parse size fits copy e,
      record {
        started = l.started;
        args = λ j h. l.args j h ∙ g j ∙ ground arith;
        image = l.image;
      },
    )
  where
    steps :
        (name args : Buf) (k' : Kernel)
        → parse_command command behind ≡ some (parsed name (a + w + s))
        → strlen (shift command (a + w + s)) ≡ some m
        → leb args_size m ≡ false
        → strcpy k.args (shift command (a + w + s)) ≡ some args
        → run_file name ebp esp (record k { args = args })
          ≡ some (entered (word (content k.fs (inode_num d)) 24), k')
        → execute (some command) behind ebp esp k
          ≡ some (entered (word (content k.fs (inode_num d)) 24), k')
    steps name args k' parse size fits copy e =
        rw (room, parse, size, fits, copy, e, execute, run_command) refl
