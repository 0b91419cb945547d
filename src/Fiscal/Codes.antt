-- ===== src/Fiscal/Codes.antt =====
-- The codes of the tax authority: src/modules/fiscal/siat/domain/siat-codes.ts.
use atlas_erpbackend.Prelude.{ℕ, zero, suc, ◌+◌, List, [], ◌∷◌, ◌++◌, ◌==◌, if◌then◌else◌, any}

pub data AccionSiat : Type 0 where
  estado renovar_credenciales configuracion documento consultar envio evento : AccionSiat
  advertencia anulacion transporte desconocido : AccionSiat

-- The numbers from one on, as many as that.
abbrev pub rango_de : ℕ → ℕ → List ℕ
rango_de desde zero = []
rango_de desde (suc n) = desde ∷ rango_de (desde + 1) n

abbrev pub clases : List (AccionSiat × List ℕ)
clases =
    (estado, 901 ∷ 902 ∷ 903 ∷ 904 ∷ 905 ∷ 906 ∷ 907 ∷ 908 ∷ 909 ∷ 926 ∷ 978 ∷ 986 ∷ 987 ∷ [])
    ∷ (renovar_credenciales, 913 ∷ 929 ∷ 973 ∷ 988 ∷ 914 ∷ 953 ∷ 123 ∷ 970 ∷ 980 ∷ 3008 ∷ [])
    ∷ (configuracion, 930 ∷ 959 ∷ 979 ∷ 989 ∷ 958 ∷ [])
    ∷ (
      documento,
      (910 ∷ 911 ∷ 912 ∷ 915 ∷ 916 ∷ 917 ∷ 918 ∷ 919 ∷ 931 ∷ 932 ∷ 933 ∷ 1008 ∷ 937 ∷ 940 ∷ 975
            ∷ 977 ∷ 990 ∷ 1016 ∷ 1017 ∷ 1007 ∷ 961 ∷ 962 ∷ 963 ∷ 964 ∷ 965 ∷ 3003 ∷ 3004 ∷ 3005
            ∷ 3006 ∷ 3007 ∷ 920 ∷ 969 ∷ 939 ∷ [])
          ++ (rango_de 1001 6
              ++ ((1009 ∷ 1034 ∷ 1035 ∷ 1041 ∷ 1051 ∷ 1010 ∷ 1011 ∷ 1012 ∷ 1013 ∷ 1014 ∷ 1015 ∷ 1018
                    ∷ [])
                  ++ (rango_de 1024 7 ++ (rango_de 1054 7 ++ (1036 ∷ 1037 ∷ 1023 ∷ 938 ∷ []))))),
    )
    ∷ (consultar, 952 ∷ 1000 ∷ 944 ∷ 942 ∷ 923 ∷ 957 ∷ [])
    ∷ (envio, 935 ∷ 943 ∷ 993 ∷ 983 ∷ 954 ∷ 956 ∷ 972 ∷ 985 ∷ 984 ∷ 1040 ∷ 971 ∷ 3009 ∷ [])
    ∷ (evento, 950 ∷ 951 ∷ 960 ∷ 974 ∷ 981 ∷ 996 ∷ 976 ∷ [])
    ∷ (advertencia, rango_de 2000 20)
    ∷ (anulacion, 925 ∷ 934 ∷ 936 ∷ 941 ∷ 945 ∷ 968 ∷ 924 ∷ 946 ∷ 3010 ∷ [])
    ∷ (transporte, 967 ∷ 991 ∷ 992 ∷ 995 ∷ 999 ∷ [])
    ∷ []

-- `POR_CODIGO`, which keeps the first class of a code.
abbrev pub first_class : ℕ → List (AccionSiat × List ℕ) → AccionSiat
first_class codigo [] = desconocido
first_class codigo ((accion, codigos) ∷ clases) =
    if any (λ c. c == codigo) codigos then accion else first_class codigo clases

unfoldable pub accion_para : ℕ → AccionSiat
accion_para codigo = first_class codigo clases

-- `CODIGO_ESTADO`
abbrev pub rechazada : ℕ
rechazada = 902

abbrev pub observada : ℕ
observada = 904

abbrev pub anulacion_confirmada : ℕ
anulacion_confirmada = 905

abbrev pub validada : ℕ
validada = 908
